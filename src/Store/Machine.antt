-- ===== src/Store/Machine.antt =====
-- store/kv_state_machine.go: the key-value state machine.
use rv_key_value.Base.{String, Option, none, some, List, [], ◌∷◌, inl, inr}
use rv_key_value.Base.Map.{Map, lookup, insert, erase}
use rv_key_value.Raft.Types.{Bytes, LogEntry, Error, StateMachine}
use rv_key_value.Store.Command.{KvCommand, KvJson, put, delete, noop, other, decode_command}
use rv_key_value.Store.Database.{Database, apply_bolt, restore_bolt}

pub record KvStateMachine (B : Type 0) : Type 0 where
  pub data_map : Map Bytes
  pub db : Option B

-- The loop of load.
unfoldable pub load_entries : List (String × Bytes) → Map Bytes → Map Bytes
load_entries [] m = m
load_entries ((k, v) ∷ kvs) m = load_entries kvs (insert k v m)

-- The switch of Apply.
unfoldable pub apply_data : KvCommand → Map Bytes → Map Bytes
apply_data c m = elim c.operation [
  | noop ↦ m
  | put ↦ insert c.key c.value m
  | delete ↦ erase c.key m
  | other t ↦ m
]

module _ {B : Type 0} where
  -- NewKVStateMachine
  abbrev pub new_kv_state_machine : KvStateMachine B
  new_kv_state_machine = record { data_map = []; db = none }

  unfoldable pub loaded :
      B → List (String × Bytes) × Option Error → Option (KvStateMachine B) × Option Error
  unfolding load_entries
  loaded b (kvs, some err) = (none, some err)
  loaded b (kvs, none) = (some (record { data_map = load_entries kvs []; db = some b }), none)

  -- The end of NewBoltKVStateMachine, with load.
  unfoldable pub opened :
      ⦃database : Database B⦄ → B × Option Error → Option (KvStateMachine B) × Option Error
  unfolding loaded
  opened ⦃database⦄ (b, some err) = (none, some err)
  opened ⦃database⦄ (b, none) = loaded b (database.entries b)

  -- NewBoltKVStateMachine; the state machine is `none` where Go returns nil.
  unfoldable pub new_bolt_kv_state_machine :
      ⦃database : Database B⦄ → Option B → Option (KvStateMachine B) × Option Error
  unfolding opened
  new_bolt_kv_state_machine ⦃database⦄ none = (some new_kv_state_machine, none)
  new_bolt_kv_state_machine ⦃database⦄ (some b) = opened (database.update database.create_bucket b)

  unfoldable pub written :
      KvCommand → Map Bytes → B × Option Error → KvStateMachine B × Option Error
  unfolding apply_data
  written c m (b, some err) = (record { data_map = m; db = some b }, some err)
  written c m (b, none) = (record { data_map = apply_data c m; db = some b }, none)

  unfoldable pub apply_command :
      ⦃database : Database B⦄ → KvCommand → Map Bytes → Option B → KvStateMachine B × Option Error
  unfolding written apply_data
  apply_command ⦃database⦄ c m none = (record { data_map = apply_data c m; db = none }, none)
  apply_command ⦃database⦄ c m (some b) = written c m (apply_bolt c b)

  -- Apply, as a call that runs alone: the source runs the transaction outside the mutex of the map.
  unfoldable pub apply_entry_to :
      ⦃database : Database B⦄ ⦃json : KvJson⦄
      → LogEntry
      → KvStateMachine B
      → KvStateMachine B × Option Error
  apply_entry_to ⦃database⦄ ⦃json⦄ entry s = elim (decode_command entry.command) [
    | inr err ↦ (s, some err)
    | inl c ↦ apply_command c s.data_map s.db
  ]

  -- Get
  unfoldable pub get : String → KvStateMachine B → Option Bytes
  get key s = lookup key s.data_map

  -- Snapshot
  unfoldable pub snapshot : ⦃json : KvJson⦄ → KvStateMachine B → Bytes × Option Error
  snapshot ⦃json⦄ s = json.marshal_map s.data_map

  unfoldable pub restored :
      Map Bytes → KvStateMachine B → B × Option Error → KvStateMachine B × Option Error
  restored m s (b, some err) = (record s { db = some b }, some err)
  restored m s (b, none) = (record { data_map = m; db = some b }, none)

  unfoldable pub restore_map :
      ⦃database : Database B⦄
      → Map Bytes
      → KvStateMachine B
      → Option B
      → KvStateMachine B × Option Error
  unfolding restored
  restore_map ⦃database⦄ m s none = (record { data_map = m; db = none }, none)
  restore_map ⦃database⦄ m s (some b) = restored m s (restore_bolt m b)

  -- RestoreSnapshot
  unfoldable pub restore_snapshot :
      ⦃database : Database B⦄ ⦃json : KvJson⦄
      → Bytes
      → KvStateMachine B
      → KvStateMachine B × Option Error
  restore_snapshot ⦃database⦄ ⦃json⦄ [] s = (s, none)
  restore_snapshot ⦃database⦄ ⦃json⦄ (b ∷ bs) s = elim (json.unmarshal_map (b ∷ bs)) [
    | inr err ↦ (s, some err)
    | inl m ↦ restore_map m s s.db
  ]

  -- The state machine that the node feeds.
  instance abbrev pub kv_state_machine :
      ⦃database : Database B⦄ ⦃json : KvJson⦄ → StateMachine (KvStateMachine B)
  kv_state_machine ⦃database⦄ ⦃json⦄ = record { apply = apply_entry_to }
