-- ===== src/Raft/Replicate/Proposals.antt =====
-- A proposal that succeeds is behind the commit index.
use rv_key_value.Base.{
  subst, ℕ, ◌+◌, ◌≤◌, ◌<◌, Bool, true, Option, none, some, List, [], ◌∷◌, ◌≡◌, inl, inr, refl,
  arith, not, if◌then◌else◌, length, All, Run, ret, Returns, Returns-map, Returns-bind, Returns-if,
  Returns-option, Bool-cases, u64_mod,
}
use rv_key_value.Raft.Types.{Bytes, LogEntry, StableStore, Error}
use rv_key_value.Raft.Membership.{MembershipJson}
use rv_key_value.Raft.Node.{RaftNode, is_leader}
use rv_key_value.Raft.Log.WellFormed.{IsWellFormed}
use rv_key_value.Raft.Commit.{is_committed}
use rv_key_value.Raft.Append.{append_local, local_entry, empty_entry}
use rv_key_value.Raft.Steps.Keep.{append_local_lem}
use rv_key_value.Raft.Election.{Effect}
use rv_key_value.Raft.Election.Winning.{IsSound}
use rv_key_value.Raft.Replicate.{Attempt, Proposal, returned, waiting, propose_loop, propose}
use rv_key_value.Raft.Replicate.Rounds.{IsSoundRound, replicate_once-Returns}

module _ {D : Type 0} where
  -- What other goroutines do during an attempt keeps a node well-formed.
  pub record IsSoundAttempt (a : Attempt D) : Type 0 where
    pub before_check : IsSound a.before_check
    pub before_state : IsSound a.before_state
    pub round : IsSoundRound a.round
    pub before_recheck : IsSound a.before_recheck

  -- A proposal of an entry still waits, has failed, or has passed its entry's index.
  abbrev pub Proposes : LogEntry → Proposal D → Type 0
  Proposes entry (waiting m) = IsWellFormed m
  Proposes entry (returned m e err) =
      IsWellFormed m × (err ≡ none → (e ≡ entry) × (entry.index ≤ m.commit_index))

  committed_lem : (n : RaftNode D) (i : ℕ) → is_committed n i ≡ true → i ≤ n.commit_index
  unfolding is_committed
  committed_lem n i h = ground arith

  passed :
      (entry : LogEntry) (n : RaftNode D) (other : Run (Proposal D))
      → IsWellFormed n
      → Returns other (Proposes entry)
      → Returns
          (if is_committed n entry.index then ret (returned n entry none) else other)
          (Proposes entry)
  passed entry n other w h = elim (Bool-cases (is_committed n entry.index)) [
    | inl yes_it_is ↦ rw yes_it_is (w, λ e. (refl, committed_lem n entry.index yes_it_is))
    | inr not_yet ↦ rw not_yet h
  ]

module _ {D : Type 0} ⦃stable : StableStore D⦄ where
  propose_loop-Proposes :
      (has_client : Bool) (entry : LogEntry) (attempts : List (Attempt D)) (n : RaftNode D)
      → IsWellFormed n
      → All IsSoundAttempt attempts
      → Returns (propose_loop has_client entry attempts n) (Proposes entry)
  unfolding propose_loop
  propose_loop-Proposes has_client entry [] n w s = w
  propose_loop-Proposes has_client entry (a ∷ rest) n w (sa, s) =
      let P = Proposes entry in
      let n1 = a.before_check n in
      let w1 = sa.before_check n w in
      let n2 = a.before_state n1 in
      let w2 = sa.before_state n1 w1 in
      passed entry n1 _ w1 (
        Returns-if P (not (is_leader n2.state)) _ _ (w2, λ e. cc)
          (Returns-if P (not has_client) _ _ (w2, λ e. cc)
            (Returns-bind (λ r. IsWellFormed r.0) P _ _
              (replicate_once-Returns entry.index a.round n2 w2 sa.round)
              (λ r wr.
                let n4 = a.before_recheck r.0 in
                let w4 = sa.before_recheck r.0 wr in
                Returns-option P r.1 _ (λ e. ret (returned r.0 entry (some e)))
                  (passed entry n4 _ w4 (
                    Returns-option P a.wait _ (λ e. ret (returned n4 entry (some e)))
                      (propose_loop-Proposes has_client entry rest n4 w4 s) (λ e. (w4, λ f. cc))))
                  (λ e. (wr, λ f. cc))))))

module _ {D : Type 0} ⦃stable : StableStore D⦄ ⦃json : MembershipJson⦄ where
  -- The entry that AppendLocal returns with no error.
  append_local-entry :
      (command : Bytes) (n : RaftNode D)
      → IsWellFormed n
      → n.last_included_index + length n.log + 2 < u64_mod
      → Returns
          (append_local command n)
          (λ r. IsWellFormed r.0 × (r.2 ≡ none → r.1 ≡ local_entry command n))
  append_local-entry command n w fits =
      Returns-map (append_local command n) (append_local_lem n w command fits)
        (λ r (f, own). (f.shape, own))

  after_append :
      (has_client : Bool) (entry : LogEntry) (attempts : List (Attempt D))
      (r : RaftNode D × LogEntry × Option Error)
      → All IsSoundAttempt attempts
      → IsWellFormed r.0 × (r.2 ≡ none → r.1 ≡ entry)
      → Returns {A = Proposal D}
          (elim r.2 [
            | some e ↦ ret (returned r.0 empty_entry (some e))
            | none ↦ propose_loop has_client r.1 attempts r.0
          ])
          (Proposes entry)
  after_append has_client entry attempts (n, e, some err) s (w, own) = (w, λ f. cc)
  after_append has_client entry attempts (n, e, none) s (w, own) =
      subst (λ x. Returns (propose_loop has_client e attempts n) (Proposes x)) (own refl)
        (propose_loop-Proposes has_client e attempts n w s)

  -- A proposal does not panic on a well-formed node with room for one more entry, if what other
  -- goroutines do keeps it well-formed, and leaves a well-formed node. If it returns no error, it
  -- returns the entry that AppendLocal made of the command, in the node's term and behind the end of
  -- its log, and the commit index has reached that entry's index.
  pub propose-Proposes :
      (context : Option Error) (has_client : Bool) (before_append : Effect D) (command : Bytes)
      (attempts : List (Attempt D)) (n : RaftNode D)
      → IsWellFormed n
      → IsSound before_append
      → (before_append n).last_included_index + length (before_append n).log + 2 < u64_mod
      → All IsSoundAttempt attempts
      → Returns
          (propose context has_client before_append command attempts n)
          (Proposes (local_entry command (before_append n)))
  unfolding propose
  propose-Proposes context has_client before_append command attempts n w sb fits s =
      let P = Proposes (local_entry command (before_append n)) in
      Returns-option P context _ (λ e. ret (returned n empty_entry (some e)))
        (Returns-if P (not (is_leader n.state)) _ _ (w, λ e. cc)
          (Returns-bind
            (λ r. IsWellFormed r.0 × (r.2 ≡ none → r.1 ≡ local_entry command (before_append n))) P _
            _ (append_local-entry command (before_append n) (sb n w) fits)
            (λ r h.
              after_append has_client (local_entry command (before_append n)) attempts r s h)))
        (λ e. (w, λ f. cc))
