-- ===== src/Raft/Steps/Reach.antt =====
-- Every operation, in every order, keeps a node well-formed, its term from falling, and its vote.
use native.Mathlib.Decide.{dec_le}
use rv_key_value.Base.{
  length, ◌≤◌, ℕ, suc, ◌+◌, ◌<◌, Option, none, some, ◌≡◌, ◌⊎◌, inl, inr, refl, arith, ltb, not,
  ◌||◌, u64, ret, Returns, Returns-map, Returns-bind, Returns-project, subst, get_elem?, ◌-◌, true,
  Bool-cases,
}
use rv_key_value.Raft.Types.{StableStore, LogEntry}
use rv_key_value.Raft.Membership.{MembershipJson}
use rv_key_value.Raft.Node.{RaftNode}
use rv_key_value.Raft.Log.{contains_log_index}
use rv_key_value.Raft.Log.WellFormed.{
  IsWellFormed, contains_log_index_lem, entry_at_lem, index-get_elem?,
}
use rv_key_value.Raft.Keeps.{KeepsVote, KeepsVote-trans, Follows, Stays, Stays-Follows, elected}
use rv_key_value.Raft.Commit.{become_leader}
use rv_key_value.Raft.Election.{promote_candidate}
use rv_key_value.Raft.Commit.Leader.{
  become_leader-Stays, ensure_leader_progress-Stays, record_replication_success-Stays,
  record_replication_failure-Stays,
}
use rv_key_value.Raft.Append.Matching.{handle_append_entries-Follows}
use rv_key_value.Raft.Apply.{next_committed_entry, mark_applied}
use rv_key_value.Raft.Steps.{
  Operation, follow, stand, lead, vote, step_down, promote, take_entries, add_local, progress,
  success, failure, applied, compacted, apply_next, perform, IsAllowed,
}
use rv_key_value.Raft.Steps.Keep.{
  still, become_follower-Follows, become_candidate-Follows, step_down-Follows, request_vote-Follows,
  promote_candidate-Follows, append_local-Follows, mark_applied-Follows, compact-Follows,
}

module _ {D : Type 0} where
  -- What nextCommittedEntry returns: nothing, or the entry behind the last applied one.
  abbrev pub IsNext : RaftNode D → Option LogEntry → Type 0
  IsNext n o =
      ((o ≡ none)
        × ((n.commit_index ≤ n.last_applied)
            ⊎ (n.last_included_index + length n.log ≤ n.last_applied)))
      ⊎ ((e : LogEntry) × (o ≡ some e)
          × (e.index ≡ suc n.last_applied)
          × (n.last_applied < n.commit_index)
          × (get_elem? n.log (n.last_applied - n.last_included_index) ≡ some e))

  -- nextCommittedEntry does not panic on a well-formed node. The entry that it returns has the index
  -- behind the last applied one, is committed and stands at its place in the log; if it returns none,
  -- the commit index or the end of the log has been applied.
  pub next_committed_entry-IsNext :
      (n : RaftNode D) → IsWellFormed n → Returns (next_committed_entry n) (IsNext n)
  unfolding next_committed_entry
  next_committed_entry-IsNext n w =
      let next : u64 (n.last_applied + 1) ≡ suc n.last_applied = omega (arith, w) in
      elim (Bool-cases (
        ltb n.commit_index (suc n.last_applied)
        || not (contains_log_index n (suc n.last_applied)))) [
          | inl stop ↦
              let range = rw (contains_log_index_lem n w (suc n.last_applied)) at stop in
              rw (next, stop)
                (inl (
                  refl,
                  elim (dec_le n.commit_index n.last_applied) [
                    | yes caught_up ↦ inl caught_up
                    | no behind ↦ inr (ground arith)
                  ],
                ))
          | inr on ↦
              let inside : contains_log_index n (suc n.last_applied) ≡ true = ground arith in
              let range = rw (contains_log_index_lem n w (suc n.last_applied)) at inside in
              let (e, found, read) =
                entry_at_lem n w (suc n.last_applied) (ground arith) (ground arith) in
              let place : suc n.last_applied - suc n.last_included_index
                  ≡ n.last_applied - n.last_included_index =
                omega arith in
              let here = subst (λ (q : ℕ). get_elem? n.log q ≡ some e) place found in
              rw (next, on, read)
                (inr (
                  e,
                  refl,
                  omega (
                    arith,
                    w,
                    index-get_elem? (suc n.last_included_index)
                        (n.last_applied - n.last_included_index) n.log w.consecutive here,
                  ),
                  ground arith,
                  here,
                ))
        ]

  apply_next-Follows :
      ⦃stable : StableStore D⦄ (n : RaftNode D)
      → IsWellFormed n
      → Returns (apply_next n) (Follows n)
  unfolding apply_next
  apply_next-Follows n w =
      Returns-bind (IsNext n) (Follows n) _ _ (next_committed_entry-IsNext n w) λ o.
        elim o
          as (λ o.
            IsNext n o
            → Returns (elim o [ none ↦ ret n | some entry ↦ ret (mark_applied entry.index n) ])
                (Follows n)) [
                  | none ↦ λ h. still n w
                  | some e ↦ λ h. mark_applied-Follows n w e.index (ground arith)
                ]

-- An operation that cannot make a leader.
abbrev pub IsQuiet : Operation → Type 0
IsQuiet lead = ⊥
IsQuiet (promote term) = ⊥
IsQuiet _ = Unit

module _ {D : Type 0} ⦃stable : StableStore D⦄ ⦃json : MembershipJson⦄ where
  same_Stays : (n : RaftNode D) → IsWellFormed n → Stays n n
  same_Stays n w = (w, record { term = refl; vote = refl; id = refl; role = refl })

  -- An operation that does not make a leader does not panic on a well-formed node, if it is allowed,
  -- and leaves a well-formed later state, which leads only if the node led in the same term.
  pub perform-Follows :
      (op : Operation) (n : RaftNode D)
      → IsQuiet op
      → IsWellFormed n
      → IsAllowed op n
      → Returns (perform op n) (Follows n)
  unfolding perform
  perform-Follows (follow term) n q w a = become_follower-Follows n w term
  perform-Follows stand n q w a = become_candidate-Follows n w a
  perform-Follows lead n q w a = absurd q
  perform-Follows (vote req) n q w a = request_vote-Follows n w req
  perform-Follows (step_down term) n q w a = step_down-Follows n w term
  perform-Follows (promote term) n q w a = absurd q
  perform-Follows (take_entries req) n q w a =
      Returns-project (λ r. r.0) (Follows n) _ (handle_append_entries-Follows req n w a)
  perform-Follows (add_local command) n q w a =
      Returns-project (λ r. r.0) (Follows n) _ (append_local-Follows n w command a)
  perform-Follows progress n q w a =
      Returns-map _ (ensure_leader_progress-Stays n n (same_Stays n w)) (Stays-Follows n)
  perform-Follows (success peer match) n q w a =
      Returns-project (λ r. r.0) (Follows n) _
        (Returns-map _ (record_replication_success-Stays peer match n n (same_Stays n w))
          (λ r. Stays-Follows n r.0))
  perform-Follows (failure peer) n q w a =
      Returns-project (λ r. r.0) (Follows n) _
        (Returns-map _ (record_replication_failure-Stays peer n n (same_Stays n w))
          (λ r. Stays-Follows n r.0))
  perform-Follows applied n q w a = apply_next-Follows n w
  perform-Follows (compacted snapshot) n q w a =
      Returns-project (λ r. r.0) (Follows n) _ (compact-Follows n w snapshot)

  -- The later states of a node: by a quiet operation, or as the leader of its term.
  abbrev pub Moves : RaftNode D → RaftNode D → Type 0
  Moves n m = Follows n m ⊎ Follows (elected n) m

  quiet_Moves :
      (op : Operation) (n : RaftNode D)
      → IsQuiet op
      → IsWellFormed n
      → IsAllowed op n
      → Returns (perform op n) (Moves n)
  quiet_Moves op n q w a =
      Returns-map {P = Follows n} {Q = Moves n} (perform op n) (perform-Follows op n q w a)
        (λ m f. inl f)

  -- None of the operations that Operation lists panics on a well-formed node, if it is allowed. Each
  -- leaves a well-formed node with the same name, whose term does not fall, which within a term does
  -- not change a vote that it cast, and which leads only if it led before in the same term, or if it
  -- became the leader of its term. SetVotedFor and the changes of the membership are not listed.
  pub perform-Moves :
      (op : Operation) (n : RaftNode D)
      → IsWellFormed n
      → IsAllowed op n
      → Returns (perform op n) (Moves n)
  unfolding perform
  perform-Moves lead n w a =
      Returns-project (λ r. r.0) (Moves n) _
        (Returns-map (become_leader n) (become_leader-Stays n w)
          (λ r s. inr (Stays-Follows (elected n) r.0 s)))
  perform-Moves (promote term) n w a =
      Returns-project (λ r. r.0) (Moves n) _
        (Returns-map (promote_candidate term n) (promote_candidate-Follows n w term)
          (λ r s. elim s [ inl f ↦ inl f | inr f ↦ inr f.2 ]))
  perform-Moves op n w a = quiet_Moves op n tt w a

  -- The states that a node goes through.
  pub data History (n : RaftNode D) : RaftNode D → Type 0 where
    here : History n n
    next :
        {m k : RaftNode D} (op : Operation)
        → History n m
        → IsAllowed op m
        → perform op m ≡ ret k
        → History n k

  Moves-IsWellFormed : (n m : RaftNode D) → Moves n m → IsWellFormed m
  Moves-IsWellFormed n m (inl f) = f.shape
  Moves-IsWellFormed n m (inr f) = f.shape

  Moves-KeepsVote : (n m : RaftNode D) → Moves n m → KeepsVote n m
  Moves-KeepsVote n m (inl f) = f.votes
  Moves-KeepsVote n m (inr f) = f.votes

  -- Whatever sequence of allowed operations a node that starts well-formed goes through, without
  -- SetVotedFor and without a change of its membership, it stays well-formed, its term does not
  -- fall, and within a term it does not change a vote that it cast.
  pub history_lem :
      {n m : RaftNode D} → IsWellFormed n → History n m → IsWellFormed m × KeepsVote n m
  history_lem w here = (w, inr (refl, inr refl))
  history_lem {n = n} w (next {m = m} {k = k} op h a e) =
      let (wm, votes) = history_lem w h in
      let moved = rw e at (perform-Moves op m wm a) in
      (Moves-IsWellFormed m k moved, KeepsVote-trans n m k votes (Moves-KeepsVote m k moved))
