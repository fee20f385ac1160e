-- ===== src/Raft/Append/Follower.antt =====
-- HandleAppendEntries on a well-formed node: its three outcomes.
use rv_key_value.Base.{
  ℕ, ◌+◌, ◌<◌, Bool, true, false, Option, none, some, ◌≡◌, ◌⊎◌, arith, ltb, ◌||◌, ◌&&◌, not,
  if◌then◌else◌, length, min, max, u64_mod, Run, ret, ◌>>=◌, Bool-cases, inl, inr,
}
use rv_key_value.Raft.Types.{
  follower, StableStore, Error, log_inconsistent, AppendEntriesRequest, AppendEntriesResponse,
}
use rv_key_value.Raft.Node.{RaftNode, is_member, is_follower}
use rv_key_value.Raft.Log.{last_log_index, append_entries_to_log}
use rv_key_value.Raft.Log.WellFormed.{IsWellFormed, last_log_index_lem}
use rv_key_value.Raft.Log.Accept.{accepts, accepted, append_entries_to_log_lem}
use rv_key_value.Raft.Append.{
  follow_leader, follow_commit, persist_if, finish_append, handle_append_entries,
}

-- What a leader's request keeps to: a previous entry has a term, and the indices fit 64 bits.
pub record IsValid (req : AppendEntriesRequest) : Type 0 where
  pub prev : (req.prev_log_index ≡ 0) ⊎ (0 < req.prev_log_term)
  pub fits : req.prev_log_index + length req.entries + 1 < u64_mod

module _ {D : Type 0} where
  pub follow_leader-IsWellFormed :
      (req : AppendEntriesRequest) (n : RaftNode D)
      → IsWellFormed n
      → IsWellFormed (follow_leader req n)
  unfolding follow_leader
  follow_leader-IsWellFormed req n w = ground arith

  pub follow_commit-IsWellFormed :
      (leader_commit : ℕ) (n : RaftNode D)
      → IsWellFormed n
      → IsWellFormed (follow_commit leader_commit n)
  unfolding follow_commit
  follow_commit-IsWellFormed leader_commit n w = ground (arith, w, last_log_index_lem n w)

module _ {D : Type 0} ⦃stable : StableStore D⦄ (req : AppendEntriesRequest) (n : RaftNode D) where
  abbrev pub passes : Bool
  passes = not (ltb req.term n.current_term) && is_member n req.leader_id

  abbrev pub refused : Run (RaftNode D × AppendEntriesResponse × Option Error)
  refused = ret (n, record { term = n.current_term; success = false }, none)

  abbrev pub reply_failure : Run (RaftNode D × AppendEntriesResponse × Option Error)
  reply_failure =
      let f = follow_leader req n in
      let p = persist_if (ltb n.current_term req.term) f in
      ret (p.0, record { term = f.current_term; success = false }, p.1)

  abbrev pub taken : RaftNode D × Bool
  taken = accepted (follow_leader req n) req.prev_log_index req.entries

  abbrev pub reply_success : Run (RaftNode D × AppendEntriesResponse × Option Error)
  reply_success =
      let p =
        persist_if (ltb n.current_term req.term || taken.1)
          (follow_commit req.leader_commit taken.0) in
      ret (p.0, record { term = taken.0.current_term; success = true }, p.1)

  -- The outcomes of HandleAppendEntries: it refuses the sender, misses the previous entry, or takes
  -- the entries.
  pub data Outcome (r : Run (RaftNode D × AppendEntriesResponse × Option Error)) : Type 0 where
    refuses : passes ≡ false → r ≡ refused → Outcome r
    misses :
        passes ≡ true
        → accepts (follow_leader req n) req.prev_log_index req.prev_log_term ≡ false
        → r ≡ reply_failure
        → Outcome r
    takes :
        passes ≡ true
        → accepts (follow_leader req n) req.prev_log_index req.prev_log_term ≡ true
        → r ≡ reply_success
        → Outcome r

  refuses_lem : passes ≡ false → handle_append_entries req n ≡ refused
  unfolding handle_append_entries
  refuses_lem stopped = elim (Bool-cases (ltb req.term n.current_term)) [
    | inl stale ↦ rw stale
    | inr current ↦
        let outsider : is_member n req.leader_id ≡ false = ground arith in rw (current, outsider)
  ]

  module _ (passed : passes ≡ true) where
    passes_lem : handle_append_entries req n ≡ (
        append_entries_to_log req.prev_log_index req.prev_log_term req.entries (follow_leader req n)
        >>= λ appended. ret (finish_append req (ltb n.current_term req.term) appended))
    unfolding handle_append_entries
    passes_lem =
        let current : ltb req.term n.current_term ≡ false = ground arith in
        let member : is_member n req.leader_id ≡ true = ground arith in rw (current, member)

    module _ (w : IsWellFormed n) (v : IsValid req) where
      appended_lem :
          (b : Bool)
          → accepts (follow_leader req n) req.prev_log_index req.prev_log_term ≡ b
          → append_entries_to_log req.prev_log_index req.prev_log_term req.entries
              (follow_leader req n)
            ≡ (if b
                then ret (taken.0, taken.1, none)
                else ret (
                  follow_leader req n,
                  false,
                  some (log_inconsistent req.prev_log_index req.prev_log_term),
                ))
      appended_lem b e = rw (← e) (
          append_entries_to_log_lem (follow_leader req n) (follow_leader-IsWellFormed req n w)
            req.prev_log_index req.prev_log_term req.entries v.prev)

      takes_lem :
          accepts (follow_leader req n) req.prev_log_index req.prev_log_term ≡ true
          → handle_append_entries req n ≡ reply_success
      unfolding finish_append
      takes_lem there = rw (passes_lem, appended_lem true there)

      misses_lem :
          accepts (follow_leader req n) req.prev_log_index req.prev_log_term ≡ false
          → handle_append_entries req n ≡ reply_failure
      unfolding finish_append
      misses_lem missing = rw (passes_lem, appended_lem false missing)

  -- HandleAppendEntries never panics on a well-formed node, and has one of the three outcomes.
  pub handle_append_entries-Outcome :
      IsWellFormed n → IsValid req → Outcome (handle_append_entries req n)
  handle_append_entries-Outcome w v = elim (Bool-cases passes) [
    | inr stopped ↦ refuses stopped (refuses_lem stopped)
    | inl passed ↦
        elim (Bool-cases (accepts (follow_leader req n) req.prev_log_index req.prev_log_term)) [
          | inl there ↦ takes passed there (takes_lem passed w v there)
          | inr missing ↦ misses passed missing (misses_lem passed w v missing)
        ]
  ]

-- The node that follows a sender, field by field.
abbrev pub following : {D : Type 0} → AppendEntriesRequest → RaftNode D → RaftNode D
following req n =
    let higher = ltb n.current_term req.term in
    let resets = higher || not (is_follower n.state) in
    record n {
      current_term = if higher then req.term else n.current_term;
      voted_for = if higher then "" else n.voted_for;
      leader_id = req.leader_id;
      state = follower;
      next_index = if resets then none else n.next_index;
      match_index = if resets then none else n.match_index;
    }

pub follow_leader_lem :
    {D : Type 0} (req : AppendEntriesRequest) (n : RaftNode D)
    → follow_leader req n ≡ following req n
unfolding follow_leader
follow_leader_lem req n = ground arith

-- The node that commits what its leader has committed, as far as its own log goes.
abbrev pub committing : {D : Type 0} → ℕ → RaftNode D → RaftNode D
committing leader_commit n =
    let reached = min leader_commit (last_log_index n) in
    record n {
      commit_index = if ltb n.commit_index reached then reached else n.commit_index;
      commit_ready = if ltb n.commit_index reached then true else n.commit_ready;
    }

pub follow_commit_lem :
    {D : Type 0} (leader_commit : ℕ) (n : RaftNode D)
    → follow_commit leader_commit n ≡ committing leader_commit n
unfolding follow_commit
follow_commit_lem leader_commit n = ground arith

pub follow_commit-index :
    {D : Type 0} (leader_commit : ℕ) (n : RaftNode D)
    → IsWellFormed n
    → (follow_commit leader_commit n).commit_index
      ≡ max n.commit_index (
          min leader_commit (
            (follow_commit leader_commit n).last_included_index
            + length (follow_commit leader_commit n).log))
follow_commit-index leader_commit n w =
    rw (follow_commit_lem leader_commit n) (rw (last_log_index_lem n w) (ground arith))
