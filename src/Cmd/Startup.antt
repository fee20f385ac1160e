-- ===== src/Cmd/Startup.antt =====
-- cmd/node/main.go: how run opens the key-value state machine beside a node.
pub mod Recovery
use rv_key_value.Base.{Option, none, some, [], ◌∷◌}
use rv_key_value.Raft.Types.{Bytes, Error}
use rv_key_value.Raft.Node.{RaftNode}
use rv_key_value.Store.Command.{KvJson}
use rv_key_value.Store.Database.{Database}
use rv_key_value.Store.Machine.{KvStateMachine, new_bolt_kv_state_machine, restore_snapshot}

module _ {B : Type 0} ⦃database : Database B⦄ ⦃json : KvJson⦄ where
  -- `return fmt.Errorf(...)` keeps the error that it wraps.
  abbrev pub restored_or_fail :
      KvStateMachine B × Option Error → Option (KvStateMachine B) × Option Error
  restored_or_fail (m, some err) = (none, some err)
  restored_or_fail (m, none) = (some m, none)

  -- `if snapshot := node.Snapshot(); len(snapshot) > 0`
  unfoldable pub restore_if_any :
      Bytes → KvStateMachine B → Option (KvStateMachine B) × Option Error
  restore_if_any [] m = (some m, none)
  restore_if_any (b ∷ bs) m = restored_or_fail (restore_snapshot (b ∷ bs) m)

  abbrev pub opened_or_fail :
      Bytes → Option (KvStateMachine B) × Option Error → Option (KvStateMachine B) × Option Error
  opened_or_fail bytes (some m, none) = restore_if_any bytes m
  opened_or_fail bytes (none, none) = (none, none)
  opened_or_fail bytes (o, some err) = (none, some err)

  -- The part of run that opens the state machine over its database, and restores the node's snapshot.
  unfoldable pub start_machine :
      {D : Type 0} → RaftNode D → B → Option (KvStateMachine B) × Option Error
  unfolding restore_if_any
  start_machine n b = opened_or_fail n.snapshot (new_bolt_kv_state_machine (some b))
