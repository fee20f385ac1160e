-- ===== src/Store/Bolt/Saved.antt =====
-- What was saved is loaded again, also by a node that restarts.
use rv_key_value.Base.{
  String, true, Option, none, some, List, ◌≡◌, ◌⊎◌, inl, inr, refl, sym, ap, ◌∙◌,
}
use rv_key_value.Raft.Types.{Bytes, PersistentState, Error}
use rv_key_value.Raft.Node.{RaftNode, new_raft_node, persist, persistent_state}
use rv_key_value.Raft.Node.Restart.{restarted, new_raft_node-persist}
use rv_key_value.Raft.Node.Persist.{persist_with}
use rv_key_value.Store.Bolt.{
  StateFile, StateJson, BoltRaftStore, save_transaction, save_bytes, save, read_state, load,
  error_of, bolt_store,
}

-- What the documents of bbolt say of the file. An update fails and changes nothing, or commits what
-- its transaction did without an error; a view returns what its transaction returns; and a key that
-- was written is read.
pub record IsStateFile (B : Type 0) ⦃file : StateFile B⦄ : Type 0 where
  pub transactions :
      (f : B → B × Option Error) (b : B)
      → ((e : Error) × (file.update f b ≡ (b, some e)))
        ⊎ (((f b).1 ≡ none) × (file.update f b ≡ ((f b).0, none)))
  pub views : (b : B) (f : B → Option Error) → file.view b f ≡ f b
  pub creates :
      (b : B) → (file.create_bucket b).1 ≡ none → file.has_bucket (file.create_bucket b).0 ≡ true
  pub writes :
      (bytes : Bytes) (b : B)
      → file.has_bucket b ≡ true
      → (file.write_key bytes b).1 ≡ none
      → (file.has_bucket (file.write_key bytes b).0 ≡ true)
        × (file.read_key (file.write_key bytes b).0 ≡ some bytes)

module _ {B : Type 0} ⦃file : StateFile B⦄ ⦃json : StateJson⦄ (law : IsStateFile B) where
  then_writes :
      (bytes : Bytes) (r : B × Option Error)
      → (r.1 ≡ none → file.has_bucket r.0 ≡ true)
      → let t : B × Option Error = elim r.1 [
        | some e ↦ (r.0, some e)
        | none ↦ file.write_key bytes r.0
      ] in
        t.1 ≡ none → (file.has_bucket t.0 ≡ true) × (file.read_key t.0 ≡ some bytes)
  then_writes bytes (b, some e) made ok = cc
  then_writes bytes (b, none) made ok = law.writes bytes b (made refl) ok

  transaction_writes :
      (bytes : Bytes) (b : B)
      → (save_transaction bytes b).1 ≡ none
      → (file.has_bucket (save_transaction bytes b).0 ≡ true)
        × (file.read_key (save_transaction bytes b).0 ≡ some bytes)
  unfolding save_transaction
  transaction_writes bytes b ok = then_writes bytes (file.create_bucket b) (law.creates b) ok

  stored_state :
      (bytes : Bytes) (state : PersistentState) (b : B)
      → (file.has_bucket b ≡ true) × (file.read_key b ≡ some bytes)
      → json.unmarshal bytes ≡ inl state
      → read_state b ≡ inl state
  unfolding read_state
  stored_state bytes state b (has, read) codec = rw (has, read, read_state) codec

  read_back :
      (bytes : Bytes) (state : PersistentState) (b : B)
      → (file.has_bucket b ≡ true) × (file.read_key b ≡ some bytes)
      → json.unmarshal bytes ≡ inl state
      → load (record { db = some b }) ≡ (state, none)
  unfolding load
  read_back bytes state b found codec =
      let e = stored_state bytes state b found codec in
      rw (law.views b (λ b'. error_of (read_state b')), load, e, e) refl

  saved_bytes :
      (marshalled : Bytes × Option Error) (state : PersistentState) (b : B)
      → json.unmarshal marshalled.0 ≡ inl state
      → let (s', err) = save_bytes marshalled b in
        load s' ≡ elim err [ none ↦ (state, none) | some e ↦ load (record { db = some b }) ]
  unfolding save_bytes
  saved_bytes (bytes, some err) state b codec = refl
  saved_bytes (bytes, none) state b codec = elim (law.transactions (save_transaction bytes) b) [
    | inl (e, failed) ↦ rw failed refl
    | inr (ok, done) ↦ rw done (read_back bytes state _ (transaction_writes bytes b ok) codec)
  ]

  saved_to :
      (state : PersistentState) (db : Option B)
      → json.unmarshal (json.marshal state).0 ≡ inl state
      → let (s', err) = save state (record { db = db }) in
        load s' ≡ elim err [ none ↦ (state, none) | some e ↦ load (record { db = db }) ]
  unfolding save
  saved_to state none codec = refl
  saved_to state (some b) codec = saved_bytes (json.marshal state) state b codec

  -- Save writes the state so that the next Load returns it without an error, or returns an error and
  -- leaves what Load returns as it was. The file behaves as bbolt documents, and the JSON codec reads
  -- back the state that it wrote.
  pub load-save :
      (state : PersistentState) (s : BoltRaftStore B)
      → json.unmarshal (json.marshal state).0 ≡ inl state
      → let (s', err) = save state s in
        load s' ≡ elim err [ none ↦ (state, none) | some e ↦ load s ]
  load-save state s codec = saved_to state s.db codec

  -- A node that persists to a bbolt file without an error and restarts from it is what it was, as a
  -- follower that has applied no more than its snapshot: its term, its vote, its log, its snapshot and
  -- its membership are those that it persisted, but if it had no peers left, it takes those of the
  -- constructor. The file behaves as bbolt documents, and the JSON codec reads back the state.
  pub new_raft_node-save :
      (n : RaftNode (BoltRaftStore B)) (peers : List String) (s : BoltRaftStore B)
      → n.store ≡ some s
      → (persist n).1 ≡ none
      → json.unmarshal (json.marshal (persistent_state n)).0 ≡ inl (persistent_state n)
      → new_raft_node n.id peers (persist n).0.store ≡ (some (restarted peers (persist n).0), none)
  new_raft_node-save n peers s has ok codec =
      let e = persist_with n s has in
      let saved : (save (persistent_state n) s).1 ≡ none = sym (ap (λ r. r.1) e) ∙ ok in
      new_raft_node-persist n peers s has (rw saved at (load-save (persistent_state n) s codec))
