-- ===== src/Examples/Starts.antt =====
-- A node that starts with a bucket that has one entry more than the node has applied.
use rv_key_value.Base.{none, some, [], ◌∷◌, ◌≡◌, ◌⊎◌, refl, sym, ap, ◌∙◌, arith}
use rv_key_value.Base.Map.{Map, lookup}
use rv_key_value.Raft.Types.{Bytes, PersistentState}
use rv_key_value.Raft.Membership.{decode_membership_change}
use rv_key_value.Raft.Node.{RaftNode}
use rv_key_value.Raft.Log.WellFormed.{IsWellFormed}
use rv_key_value.Store.Command.{decode_command, validate_command}
use rv_key_value.Store.Machine.{KvStateMachine, get}
use rv_key_value.Store.Behaviour.{IsMirrored, read_after, stored}
use rv_key_value.Store.Replay.{IsAhead}
use rv_key_value.Cmd.Startup.{start_machine}
use rv_key_value.Cmd.Startup.Recovery.{
  Recovers, FailsToOpen, FailsToRestore, start_machine-Recovers,
}
use rv_key_value.Examples.{new_node, entry, disk_store, no_membership}
use rv_key_value.Examples.Stores.{bucket, bucket-IsBolt, stored_lem, writes}

-- Two entries are committed, and none is applied.
abbrev started : RaftNode PersistentState
started = record (new_node "b") {
  current_term = 1;
  log = entry 1 1 ∷ entry 1 2 ∷ [];
  commit_index = 2;
}

started-IsWellFormed : IsWellFormed started
started-IsWellFormed = record {
  consecutive = (refl, (refl, tt));
  bounded = omega arith;
  included_applied = omega arith;
  applied_committed = omega arith;
  commit_bounded = omega arith;
  progress = refl;
}

abbrev one_key : Map Bytes
one_key = ("x", 1 ∷ []) ∷ []

abbrev kept : KvStateMachine (Map Bytes)
kept = record { data_map = one_key; db = some one_key }

same_bucket : {b : Map Bytes} → some one_key ≡ some b → one_key ≡ b
same_bucket e = cc

kept-IsMirrored : IsMirrored kept
unfolding get
kept-IsMirrored b e k = ap (λ z. stored z k) (sym (same_bucket e)) ∙ stored_lem one_key k

kept-IsAhead : IsAhead started (λ k. none) 1 kept
unfolding get lookup read_after decode_command decode_membership_change validate_command
kept-IsAhead = ((λ k. refl), omega arith, omega arith)

start_machine-Recovers_example :
    Recovers started
      (λ k. none)
      (λ err. FailsToOpen one_key err ⊎ FailsToRestore (Map Bytes) [] err)
      (start_machine started one_key)
start_machine-Recovers_example =
    start_machine-Recovers started (λ k. none) started one_key 1 kept bucket-IsBolt refl
      kept-IsMirrored started-IsWellFormed kept-IsAhead
