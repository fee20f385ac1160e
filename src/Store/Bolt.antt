-- ===== src/Store/Bolt.antt =====
-- store/bolt_store.go: a node's persistent state in a bbolt file.
pub mod Saved
use rv_key_value.Base.{
  ℕ, String, Bool, true, false, Option, none, some, List, [], ◌⊎◌, inl, inr, if◌then◌else◌,
}
use rv_key_value.Raft.Types.{Bytes, PersistentState, StableStore, Error, message}

-- What the source calls of bbolt: `open_file` is bbolt.Open, `update` and `view` run a transaction,
-- `has_bucket` and `read_key` are Bucket and Get in a View, for the bucket and the key of the source.
pub record StateFile (B : Type 0) : Type 0 where
  pub open_file : String → ℕ → B ⊎ Error
  pub close_file : B → B × Option Error
  pub update : (B → B × Option Error) → B → B × Option Error
  pub view : B → (B → Option Error) → Option Error
  pub create_bucket : B → B × Option Error
  pub write_key : Bytes → B → B × Option Error
  pub has_bucket : B → Bool
  pub read_key : B → Option Bytes

-- `json.Marshal` and `json.Unmarshal` at `PersistentState`.
pub record StateJson : Type 0 where
  pub marshal : PersistentState → Bytes × Option Error
  pub unmarshal : Bytes → PersistentState ⊎ Error

-- The receiver: `db` is `none` for a nil store and for one without a database.
pub record BoltRaftStore (B : Type 0) : Type 0 where
  pub db : Option B

-- `raft.PersistentState{}`
abbrev pub empty_state : PersistentState
empty_state = record {
  current_term = 0;
  voted_for = "";
  peers = none;
  self_member = none;
  last_included_index = 0;
  last_included_term = 0;
  snapshot = [];
  log = [];
}

abbrev pub error_of : {A : Type 0} → A ⊎ Error → Option Error
error_of (inl a) = none
error_of (inr err) = some err

abbrev pub state_of : PersistentState ⊎ Error → PersistentState
state_of (inl state) = state
state_of (inr err) = empty_state

module _ {B : Type 0} where
  -- init
  unfoldable pub init : ⦃file : StateFile B⦄ → B → B × Option Error
  init ⦃file⦄ b = file.update file.create_bucket b

  abbrev initialised : B × Option Error → BoltRaftStore B ⊎ Error
  initialised (b, some err) = inr err
  initialised (b, none) = inl (record { db = some b })

  -- NewBoltRaftStore
  unfoldable pub new_bolt_raft_store : ⦃file : StateFile B⦄ → String → ℕ → BoltRaftStore B ⊎ Error
  unfolding init
  new_bolt_raft_store ⦃file⦄ path timeout = elim (file.open_file path timeout) [
    | inr err ↦ inr err
    | inl b ↦ initialised (init b)
  ]

  -- Close
  unfoldable pub close : ⦃file : StateFile B⦄ → BoltRaftStore B → BoltRaftStore B × Option Error
  close ⦃file⦄ s = elim s.db [
    | none ↦ (s, none)
    | some b ↦ let (b', err) = file.close_file b in (record { db = some b' }, err)
  ]

  -- The transaction of Save.
  unfoldable pub save_transaction : ⦃file : StateFile B⦄ → Bytes → B → B × Option Error
  save_transaction ⦃file⦄ bytes b =
      let (b', err) = file.create_bucket b in
      elim err [ some e ↦ (b', some e) | none ↦ file.write_key bytes b' ]

  unfoldable pub save_bytes :
      ⦃file : StateFile B⦄ → Bytes × Option Error → B → BoltRaftStore B × Option Error
  save_bytes ⦃file⦄ (bytes, some err) b = (record { db = some b }, some err)
  save_bytes ⦃file⦄ (bytes, none) b =
      let (b', err) = file.update (save_transaction bytes) b in (record { db = some b' }, err)

  -- Save
  unfoldable pub save :
      ⦃file : StateFile B⦄ ⦃json : StateJson⦄
      → PersistentState
      → BoltRaftStore B
      → BoltRaftStore B × Option Error
  unfolding save_bytes
  save ⦃file⦄ ⦃json⦄ state s = elim s.db [
    | none ↦ (s, some (message "bolt raft store is closed"))
    | some b ↦ save_bytes (json.marshal state) b
  ]

  -- What the transaction of Load leaves in `state`, and its error.
  unfoldable pub read_state : ⦃file : StateFile B⦄ ⦃json : StateJson⦄ → B → PersistentState ⊎ Error
  read_state ⦃file⦄ ⦃json⦄ b =
      if file.has_bucket b
      then elim (file.read_key b) [ none ↦ inl empty_state | some bytes ↦ json.unmarshal bytes ]
      else inl empty_state

  -- Load
  unfoldable pub load :
      ⦃file : StateFile B⦄ ⦃json : StateJson⦄ → BoltRaftStore B → PersistentState × Option Error
  load ⦃file⦄ ⦃json⦄ s = elim s.db [
    | none ↦ (empty_state, some (message "bolt raft store is closed"))
    | some b ↦ elim (file.view b (λ b'. error_of (read_state b'))) [
      | some err ↦ (empty_state, some err)
      | none ↦ (state_of (read_state b), none)
    ]
  ]

  -- The store that a node persists to.
  instance abbrev pub bolt_store :
      ⦃file : StateFile B⦄ ⦃json : StateJson⦄ → StableStore (BoltRaftStore B)
  bolt_store ⦃file⦄ ⦃json⦄ = record { save = save; load = load }
