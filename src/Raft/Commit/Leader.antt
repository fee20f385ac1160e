-- ===== src/Raft/Commit/Leader.antt =====
-- The operations of a leader on its progress table keep a node well-formed, and touch neither its
-- term nor its vote.
use rv_key_value.Base.{
  ℕ, ◌+◌, ◌-◌, ◌≤◌, String, true, Option, none, some, ◌≡◌, ◌≢◌, inl, inr, refl, sym, ap, ◌∙◌, subst,
  arith, ltb, leb, ◌||◌, ◌&&◌, not, length, u64, max, ret, ◌>>=◌, Returns, Returns-map,
  Returns-bind, Returns-if, Bool-cases, Option-cases,
}
use rv_key_value.Base.Map.{Map, lookup?, lookup?-ne-none}
use rv_key_value.Raft.Types.{StableStore, Error}
use rv_key_value.Raft.Node.{RaftNode, is_leader, is_set}
use rv_key_value.Raft.Log.WellFormed.{IsWellFormed}
use rv_key_value.Raft.Keeps.{SameVote, Stays, persist-Stays, elected, elected-Stays}
use rv_key_value.Raft.Commit.{
  advance_commit, init_leader_progress, become_leader, insert_or_panic, record_replication_success,
  record_replication_failure, ensure_leader_progress, back_up, misses_peer,
}
use rv_key_value.Raft.Commit.Advance.{
  Advanced, stays, moves, advance_commit_lem, advance_commit_other,
}

set_of_ne : {A : Type 0} (o : Option A) → o ≢ none → is_set o ≡ true
set_of_ne none h = absurd (h refl)
set_of_ne (some a) h = refl

module _ {D : Type 0} where
  -- Between two states only the commit index moves: up, and not past the end of the log.
  pub record Committed (n m : RaftNode D) : Type 0 where
    pub same : m ≡ record n { commit_index = m.commit_index; commit_ready = m.commit_ready }
    pub grows : n.commit_index ≤ m.commit_index
    pub inside : m.commit_index ≤ max n.commit_index (n.last_included_index + length n.log)

  Advanced-Committed :
      (n m : RaftNode D) → Advanced n (n.last_included_index + length n.log) m → Committed n m
  Advanced-Committed n m (stays _ e) =
      subst (Committed n) (sym e)
        (record { same = refl; grows = omega arith; inside = omega arith })
  Advanced-Committed n m (moves i low high _ _ e) =
      subst (Committed n) (sym e)
        (record { same = refl; grows = omega arith; inside = omega arith })

  pub advance_commit-Committed :
      (n : RaftNode D) → IsWellFormed n → Returns (advance_commit n) (Committed n)
  advance_commit-Committed n w = elim (Bool-cases (is_leader n.state && n.self_member)) [
    | inr other ↦
        rw (advance_commit_other n other)
          (record { same = refl; grows = omega arith; inside = omega arith })
    | inl acts ↦
        Returns-map (advance_commit n) (advance_commit_lem n w (ground arith) (ground arith))
          (λ m. Advanced-Committed n m)
  ]

  pub Committed-IsWellFormed : (n m : RaftNode D) → Committed n m → IsWellFormed n → IsWellFormed m
  Committed-IsWellFormed n m c w = rw c.same (record {
    consecutive = w.consecutive;
    bounded = w.bounded;
    included_applied = w.included_applied;
    applied_committed = omega (arith, w, c);
    commit_bounded = omega (arith, w, c);
    progress = w.progress;
  })

  Committed-SameVote : (n m : RaftNode D) → Committed n m → SameVote n m
  Committed-SameVote n m c = record {
    term = ap (λ k. k.current_term) c.same;
    vote = ap (λ k. k.voted_for) c.same;
    id = ap (λ k. k.id) c.same;
    role = ap (λ k. k.state) c.same;
  }

  pub advance_commit-Stays : (n k : RaftNode D) → Stays n k → Returns (advance_commit k) (Stays n)
  advance_commit-Stays n k (w, s) =
      Returns-map (advance_commit k) (advance_commit-Committed k w) (λ m c. (
        Committed-IsWellFormed k m c w,
        record {
          term = (Committed-SameVote k m c).term ∙ s.term;
          vote = (Committed-SameVote k m c).vote ∙ s.vote;
          id = (Committed-SameVote k m c).id ∙ s.id;
          role = (Committed-SameVote k m c).role ∙ s.role;
        },
      ))

  pub init_leader_progress-Stays :
      (n k : RaftNode D) → Stays n k → Returns (init_leader_progress k) (Stays n)
  unfolding init_leader_progress
  init_leader_progress-Stays n k s = advance_commit-Stays n _ (ground (arith, s))

  pub ensure_leader_progress-Stays :
      (n k : RaftNode D) → Stays n k → Returns (ensure_leader_progress k) (Stays n)
  unfolding ensure_leader_progress
  ensure_leader_progress-Stays n k s =
      let filled = init_leader_progress-Stays n k s in
      Returns-if (Stays n) (not (is_leader k.state)) _ _ s (
        Returns-if (Stays n) (not (is_set k.next_index) || not (is_set k.match_index)) _ _ filled
          (Returns-if (Stays n) (misses_peer k k.peers) _ _ filled s))

  -- Writes to two tables that are not nil, and the commit behind them.
  write_both :
      (peer_id : String) (match next : ℕ) (n k : RaftNode D) (mi ni : Option (Map ℕ))
      → Stays n k
      → is_set mi ≡ true
      → is_set ni ≡ true
      → Returns {A = RaftNode D × Option Error}
          (insert_or_panic peer_id match mi >>= λ m. insert_or_panic peer_id next ni >>= λ t.
            advance_commit (record k { match_index = some m; next_index = some t }) >>= λ n'.
            ret (n', none))
          (λ r. Stays n r.0)
  write_both peer_id match next n k none ni s p q = cc
  write_both peer_id match next n k (some m) none s p q = cc
  write_both peer_id match next n k (some m) (some t) s p q =
      Returns-bind (Stays n) (λ r. Stays n r.0) _ (λ n'. ret (n', none))
        (advance_commit-Stays n _ (ground (arith, s))) (λ m h. h)

  record_known :
      (peer_id : String) (match next : ℕ) (n k : RaftNode D)
      → Stays n k
      → lookup? peer_id k.next_index ≡ some next
      → Returns (record_replication_success peer_id match k) (λ r. Stays n r.0)
  unfolding record_replication_success
  record_known peer_id match next n k s e =
      let next_set = set_of_ne k.next_index (lookup?-ne-none peer_id k.next_index e) in
      rw e (
        write_both peer_id match (u64 (match + 1)) n k k.match_index k.next_index s
          (sym s.0.progress ∙ next_set) next_set)

  pub record_replication_success-Stays :
      (peer_id : String) (match : ℕ) (n k : RaftNode D)
      → Stays n k
      → Returns (record_replication_success peer_id match k) (λ r. Stays n r.0)
  unfolding record_replication_success
  record_replication_success-Stays peer_id match n k s =
      elim (Option-cases (lookup? peer_id k.next_index)) [
        | inl missing ↦ rw missing s
        | inr (next, e) ↦ record_known peer_id match next n k s e
      ]

  write_one :
      (peer_id : String) (next : ℕ) (n k : RaftNode D) (ni : Option (Map ℕ))
      → Stays n k
      → is_set k.next_index ≡ true
      → is_set ni ≡ true
      → Returns {A = RaftNode D × Option Error}
          (insert_or_panic peer_id next ni >>= λ t. ret (record k { next_index = some t }, none))
          (λ r. Stays n r.0)
  write_one peer_id next n k none s p q = cc
  write_one peer_id next n k (some t) s p q = ground (arith, s)

  back_up-Stays :
      (peer_id : String) (next : ℕ) (n k : RaftNode D)
      → Stays n k
      → lookup? peer_id k.next_index ≡ some next
      → Returns (back_up peer_id next k) (λ r. Stays n r.0)
  unfolding back_up
  back_up-Stays peer_id next n k s e =
      let next_set = set_of_ne k.next_index (lookup?-ne-none peer_id k.next_index e) in
      Returns-if (λ r. Stays n r.0) (not (ltb 1 next)) _ _ s
        (Returns-if (λ r. Stays n r.0) (leb next (u64 (k.last_included_index + 1))) _ _ s
          (write_one peer_id (next - 1) n k k.next_index s next_set next_set))

  pub record_replication_failure-Stays :
      (peer_id : String) (n k : RaftNode D)
      → Stays n k
      → Returns (record_replication_failure peer_id k) (λ r. Stays n r.0)
  unfolding record_replication_failure
  record_replication_failure-Stays peer_id n k s =
      elim (Option-cases (lookup? peer_id k.next_index)) [
        | inl missing ↦ rw (missing, record_replication_failure, Returns) s
        | inr (next, e) ↦ rw (e, record_replication_failure) (back_up-Stays peer_id next n k s e)
      ]

module _ {D : Type 0} ⦃stable : StableStore D⦄ where
  pub become_leader-Stays :
      (n : RaftNode D) → IsWellFormed n → Returns (become_leader n) (λ r. Stays (elected n) r.0)
  unfolding become_leader
  become_leader-Stays n w =
      Returns-bind (Stays (elected n)) (λ r. Stays (elected n) r.0) _ _
        (init_leader_progress-Stays (elected n) (elected n) (elected-Stays n w))
        (λ m h. persist-Stays (elected n) m h)
