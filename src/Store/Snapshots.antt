-- ===== src/Store/Snapshots.antt =====
-- A snapshot of the key-value state machine, restored into another one.
use rv_key_value.Base.{String, Option, none, some, [], ◌∷◌, ◌≡◌, ◌≢◌, inl, refl}
use rv_key_value.Base.Map.{Map, lookup}
use rv_key_value.Raft.Types.{Bytes, Error}
use rv_key_value.Store.Command.{KvJson}
use rv_key_value.Store.Database.{Database, restore_bolt}
use rv_key_value.Store.Machine.{
  KvStateMachine, get, snapshot, restored, restore_map, restore_snapshot,
}

module _ {B : Type 0} ⦃database : Database B⦄ where
  get-restored :
      (m : Map Bytes) (t : KvStateMachine B) (k : String) (r : B × Option Error)
      → let (t', err) = restored m t r in
        get k t' ≡ elim err [ some e ↦ get k t | none ↦ lookup k m ]
  unfolding restored get
  get-restored m t k (b, some e) = refl
  get-restored m t k (b, none) = refl

  get-restore_map :
      (m : Map Bytes) (t : KvStateMachine B) (k : String) (db : Option B)
      → let (t', err) = restore_map m t db in
        get k t' ≡ elim err [ some e ↦ get k t | none ↦ lookup k m ]
  unfolding restore_map get
  get-restore_map m t k none = refl
  get-restore_map m t k (some b) = get-restored m t k (restore_bolt m b)

  pub get-restore_bytes :
      ⦃json : KvJson⦄ (bytes : Bytes) (m : Map Bytes) (t : KvStateMachine B) (k : String)
      → bytes ≢ []
      → json.unmarshal_map bytes ≡ inl m
      → let (t', err) = restore_snapshot bytes t in
        get k t' ≡ elim err [ some e ↦ get k t | none ↦ lookup k m ]
  unfolding restore_snapshot
  get-restore_bytes ⦃json⦄ [] m t k some_bytes read = absurd (some_bytes refl)
  get-restore_bytes ⦃json⦄ (b ∷ bs) m t k some_bytes read =
      rw (read, restore_snapshot) (get-restore_map m t k t.db)

  -- RestoreSnapshot of what Snapshot returned makes a state machine read every key as the one that the
  -- snapshot is of, if it returns no error, and leaves what it reads as it was if it returns one. The
  -- JSON codec wrote at least a byte, and reads back the map that it wrote.
  pub get-restore_snapshot :
      ⦃json : KvJson⦄ (s t : KvStateMachine B) (k : String)
      → (json.marshal_map s.data_map).0 ≢ []
      → json.unmarshal_map (json.marshal_map s.data_map).0 ≡ inl s.data_map
      → let (t', err) = restore_snapshot (snapshot s).0 t in
        get k t' ≡ elim err [ some e ↦ get k t | none ↦ get k s ]
  unfolding get snapshot
  get-restore_snapshot ⦃json⦄ s t k some_bytes read =
      get-restore_bytes (snapshot s).0 s.data_map t k some_bytes read
