-- ===== src/Raft/Steps.antt =====
-- The operations of a node as data, without those that change the membership and without SetVotedFor,
-- which sets a vote unconditionally and is called by tests only: a node's history is a list of them, in
-- the order in which their critical sections ran.
pub mod Keep
pub mod Reach
use rv_key_value.Base.{
  ℕ, suc, ◌+◌, ◌<◌, String, List, [], ◌∷◌, Run, ret, ◌>>=◌, length, u64_mod, Option, none, some,
}
use rv_key_value.Raft.Types.{
  Bytes, LogEntry, StableStore, Error, RequestVoteRequest, AppendEntriesRequest,
}
use rv_key_value.Raft.Membership.{MembershipJson}
use rv_key_value.Raft.Node.{RaftNode, become_follower, become_candidate}
use rv_key_value.Raft.Vote.{request_vote, step_down_for_higher_term}
use rv_key_value.Raft.Commit.{
  become_leader, record_replication_success, record_replication_failure, ensure_leader_progress,
}
use rv_key_value.Raft.Append.{handle_append_entries, append_local}
use rv_key_value.Raft.Append.Follower.{IsValid}
use rv_key_value.Raft.Apply.{next_committed_entry, mark_applied, compact}
use rv_key_value.Raft.Election.{promote_candidate}

pub data Operation : Type 0 where
  follow : ℕ → Operation
  stand : Operation
  lead : Operation
  vote : RequestVoteRequest → Operation
  step_down : ℕ → Operation
  promote : ℕ → Operation
  take_entries : AppendEntriesRequest → Operation
  add_local : Bytes → Operation
  progress : Operation
  success : String → ℕ → Operation
  failure : String → Operation
  applied : Operation
  compacted : Bytes → Operation

module _ {D : Type 0} where
  -- The part of a turn of ApplyCommitted that is the node's, for an entry that is no membership
  -- change.
  unfoldable pub apply_next : RaftNode D → Run (RaftNode D)
  apply_next n = do
    next ← next_committed_entry n
    elim next [ none ↦ ret n | some entry ↦ ret (mark_applied entry.index n) ]

  unfoldable pub perform :
      ⦃stable : StableStore D⦄ ⦃json : MembershipJson⦄ → Operation → RaftNode D → Run (RaftNode D)
  perform ⦃stable⦄ ⦃json⦄ (follow term) n = ret (become_follower term n).0
  perform ⦃stable⦄ ⦃json⦄ stand n = ret (become_candidate n).0
  perform ⦃stable⦄ ⦃json⦄ lead n = do r ← become_leader n; ret r.0
  perform ⦃stable⦄ ⦃json⦄ (vote req) n = ret (request_vote req n).0
  perform ⦃stable⦄ ⦃json⦄ (step_down term) n = ret (step_down_for_higher_term term n).0
  perform ⦃stable⦄ ⦃json⦄ (promote term) n = do r ← promote_candidate term n; ret r.0
  perform ⦃stable⦄ ⦃json⦄ (take_entries req) n = do r ← handle_append_entries req n; ret r.0
  perform ⦃stable⦄ ⦃json⦄ (add_local command) n = do r ← append_local command n; ret r.0
  perform ⦃stable⦄ ⦃json⦄ progress n = ensure_leader_progress n
  perform ⦃stable⦄ ⦃json⦄ (success peer match) n = do
    r ← record_replication_success peer match n
    ret r.0
  perform ⦃stable⦄ ⦃json⦄ (failure peer) n = do r ← record_replication_failure peer n; ret r.0
  perform ⦃stable⦄ ⦃json⦄ applied n = apply_next n
  perform ⦃stable⦄ ⦃json⦄ (compacted snapshot) n = do r ← compact snapshot n; ret r.0

  -- What an operation asks for: a term and an index that still fit 64 bits, and a valid request.
  abbrev pub IsAllowed : Operation → RaftNode D → Type 0
  IsAllowed stand n = n.current_term + 1 < u64_mod
  IsAllowed (take_entries req) n = IsValid req
  IsAllowed (add_local command) n = n.last_included_index + length n.log + 2 < u64_mod
  IsAllowed _ n = Unit
