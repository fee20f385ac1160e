-- ===== src/Raft/Commit/Advance.antt =====
-- Which index a leader's advanceCommitLocked commits.
use native.Mathlib.Decide.{dec_lt, dec_le}
use rv_key_value.Base.Map.{Map, lookup, lookup?}
use rv_key_value.Base.{
  ap, ◌∙◌, String, Option, none, some, List, [], ◌∷◌, ◌*◌, not, ltb, count, ◌∷◌, count, List,
  String, ltb, ℕ, zero, suc, ◌+◌, ◌≤◌, ◌<◌, Bool, true, false, ◌≡◌, inl, inr, refl, arith, leb,
  ◌==◌, ◌&&◌, if◌then◌else◌, length, ret, Returns, Returns-map, Bool-cases,
}
use rv_key_value.Raft.Node.{RaftNode, is_leader, majority, cluster_size, signal_commit_ready}
use rv_key_value.Raft.Log.{last_log_index}
use rv_key_value.Raft.Log.WellFormed.{IsWellFormed, last_log_index_lem, term_view, log_term_at_lem}
use rv_key_value.Raft.Commit.{
  or_zero, lookup?, count_matching, replicated, advance_loop, advance_commit,
}

-- A peer that is not in the table has matched nothing.
abbrev pub reaches : ℕ → Option ℕ → Bool
reaches i none = i == 0
reaches i (some match) = not (ltb match i)

-- Whether the leader knows that the peer's log agrees with its own up to the index.
unfoldable pub is_matched : Option (Map ℕ) → ℕ → String → Bool
is_matched none i peer = i == 0
is_matched (some m) i peer = reaches i (lookup peer m)

reaches_lem : (i : ℕ) (o : Option ℕ) → leb i (or_zero o) ≡ reaches i o
reaches_lem i none = ground arith
reaches_lem i (some match) = ground arith

matched_lem :
    (o : Option (Map ℕ)) (i : ℕ) (p : String) → leb i (or_zero (lookup? p o)) ≡ is_matched o i p
unfolding is_matched lookup?
matched_lem none i p = ground arith
matched_lem (some m) i p = reaches_lem i (lookup p m)

module _ {D : Type 0} where
  -- Of the leader and its peers, more than a half have the entry: the leader itself, and the peers
  -- that match.
  abbrev pub is_on_majority : RaftNode D → ℕ → Bool
  is_on_majority n i =
      ltb (length (n.id ∷ n.peers)) (2 * (1 + count (is_matched n.match_index i) n.peers))

  -- An index may be committed: its entry is of the current term, and a majority has it.
  unfoldable pub is_committable : RaftNode D → ℕ → Bool
  is_committable n i = term_view n i == n.current_term && is_on_majority n i

  count_matching_lem :
      (n : RaftNode D) (i : ℕ) (peers : List String)
      → count_matching n.match_index i peers ≡ count (is_matched n.match_index i) peers
  unfolding count_matching
  count_matching_lem n i [] = refl
  count_matching_lem n i (p ∷ ps) =
      ground (arith, matched_lem n.match_index i p, count_matching_lem n i ps)

  -- The leader's count reaches the majority of the cluster just if more than a half have the entry.
  majority_lem :
      (n : RaftNode D) (i : ℕ)
      → n.self_member ≡ true
      → leb (majority (cluster_size n)) (replicated n i) ≡ is_on_majority n i
  unfolding majority cluster_size replicated
  majority_lem n i self = ground (arith, self, count_matching_lem n i n.peers)

  -- The indices from `i` on up to `k` may not be committed.
  abbrev pub NoneCommittable : RaftNode D → ℕ → ℕ → Type 0
  NoneCommittable n i k = (j : ℕ) → i < j → j ≤ k → is_committable n j ≡ false

  -- `m` is `n` with the highest committable index up to `k` committed, if one is above its commit
  -- index.
  pub data Advanced (n : RaftNode D) (k : ℕ) (m : RaftNode D) : Type 0 where
    stays : NoneCommittable n n.commit_index k → m ≡ n → Advanced n k m
    moves :
        (i : ℕ)
        → n.commit_index < i
        → i ≤ k
        → is_committable n i ≡ true
        → NoneCommittable n i k
        → m ≡ signal_commit_ready (record n { commit_index = i })
        → Advanced n k m

  NoneCommittable-suc :
      (n : RaftNode D) (i k : ℕ)
      → is_committable n (suc k) ≡ false
      → NoneCommittable n i k
      → NoneCommittable n i (suc k)
  NoneCommittable-suc n i k last rest j low high = elim (dec_le j k) [
    | yes below ↦ rest j low below
    | no above ↦ let e : j ≡ suc k = omega arith in rw e last
  ]

  skip-Advanced :
      (n : RaftNode D) (k : ℕ) (m : RaftNode D)
      → is_committable n (suc k) ≡ false
      → Advanced n k m
      → Advanced n (suc k) m
  skip-Advanced n k m last (stays rest e) =
      stays (NoneCommittable-suc n n.commit_index k last rest) e
  skip-Advanced n k m last (moves i low high found rest e) =
      moves i low (omega arith) found (NoneCommittable-suc n i k last rest) e

  module _ (n : RaftNode D) (w : IsWellFormed n) (self : n.self_member ≡ true) where
    loop_code :
        (k : ℕ)
        → n.commit_index < suc k
        → advance_loop n (suc k) ≡ (
            if term_view n (suc k) == n.current_term
              && leb (majority (cluster_size n)) (replicated n (suc k))
            then ret (signal_commit_ready (record n { commit_index = suc k }))
            else advance_loop n k)
    unfolding advance_loop
    loop_code k above = rw (log_term_at_lem n w (suc k)) (ground arith)

    committable_lem :
        (i : ℕ)
        → (term_view n i == n.current_term && leb (majority (cluster_size n)) (replicated n i))
          ≡ is_committable n i
    unfolding is_committable
    committable_lem i = ap (λ b. term_view n i == n.current_term && b) (majority_lem n i self)

    loop_step :
        (k : ℕ)
        → n.commit_index < suc k
        → advance_loop n (suc k) ≡ (
            if is_committable n (suc k)
            then ret (signal_commit_ready (record n { commit_index = suc k }))
            else advance_loop n k)
    loop_step k above =
        loop_code k above
        ∙ ap
            (λ b.
              if b
              then ret (signal_commit_ready (record n { commit_index = suc k }))
              else advance_loop n k)
            (committable_lem (suc k))

    loop_zero : advance_loop n zero ≡ ret n
    unfolding advance_loop
    loop_zero = refl

    loop_end : (k : ℕ) → ¬ (n.commit_index < suc k) → advance_loop n (suc k) ≡ ret n
    unfolding advance_loop
    loop_end k below = ground arith

    pub advance_loop-Advanced : (k : ℕ) → Returns (advance_loop n k) (Advanced n k)
    advance_loop-Advanced zero = rw loop_zero (stays (λ j low high. absurd (omega arith)) refl)
    advance_loop-Advanced (suc k) = elim (dec_lt n.commit_index (suc k)) [
      | yes above ↦ elim (Bool-cases (is_committable n (suc k))) [
        | inl found ↦
            rw (loop_step k above, found)
              (moves (suc k) above (omega arith) found (λ j low high. absurd (omega arith)) refl)
        | inr missing ↦
            rw (loop_step k above, missing)
              (Returns-map (advance_loop n k) (advance_loop-Advanced k)
                (λ m. skip-Advanced n k m missing))
      ]
      | no below ↦ rw (loop_end k below) (stays (λ j low high. absurd (omega arith)) refl)
    ]

  advance_commit_leader :
      (n : RaftNode D)
      → is_leader n.state ≡ true
      → n.self_member ≡ true
      → advance_commit n ≡ advance_loop n (last_log_index n)
  unfolding advance_commit
  advance_commit_leader n l s = rw (l, s)

  -- advanceCommitLocked of a leader that is a member does not panic on a well-formed node. It commits
  -- the highest index of the log above its commit index whose entry is of the current term and on a
  -- majority, and changes nothing if there is none. On a majority means that more than a half of the
  -- leader and its peers have it: the leader itself, and each peer whose match index is not lower.
  pub advance_commit_lem :
      (n : RaftNode D)
      → IsWellFormed n
      → is_leader n.state ≡ true
      → n.self_member ≡ true
      → Returns (advance_commit n) (Advanced n (n.last_included_index + length n.log))
  advance_commit_lem n w l s =
      rw (advance_commit_leader n l s, last_log_index_lem n w)
        (advance_loop-Advanced n w s (n.last_included_index + length n.log))

  -- A node that is no leader, or no member, does not move its commit index.
  pub advance_commit_other :
      (n : RaftNode D) → (is_leader n.state && n.self_member) ≡ false → advance_commit n ≡ ret n
  unfolding advance_commit
  advance_commit_other n h = ground arith
