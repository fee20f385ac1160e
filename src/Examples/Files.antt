-- ===== src/Examples/Files.antt =====
-- A node that persists to a file with one key.
use rv_key_value.Base.{Bool, true, false, Option, none, some, [], ◌∷◌, ◌≡◌, ◌⊎◌, inl, inr, refl}
use rv_key_value.Raft.Types.{Bytes, PersistentState, Error}
use rv_key_value.Raft.Node.{
  RaftNode, fresh_node, clone_peers, new_raft_node, persist, persistent_state,
}
use rv_key_value.Raft.Node.Restart.{restarted}
use rv_key_value.Store.Bolt.{
  StateFile, StateJson, BoltRaftStore, save_bytes, save_transaction, save, bolt_store,
}
use rv_key_value.Store.Bolt.Saved.{IsStateFile, new_raft_node-save}
use rv_key_value.Examples.{entry}

-- Whether the bucket is there, and what it holds under the key.
abbrev File : Type 0
File = Bool × Option Bytes

abbrev commit_file : File → File × Option Error → File × Option Error
commit_file b (b', none) = (b', none)
commit_file b (b', some e) = (b, some e)

instance abbrev memory_file : StateFile File
memory_file = record {
  open_file = λ path timeout. inl (false, none);
  close_file = λ b. (b, none);
  update = λ f b. commit_file b (f b);
  view = λ b f. f b;
  create_bucket = λ b. ((true, b.1), none);
  write_key = λ bytes b. ((b.0, some bytes), none);
  has_bucket = λ b. b.0;
  read_key = λ b. b.1;
}

commit_file_lem :
    (b : File) (r : File × Option Error)
    → ((e : Error) × (commit_file b r ≡ (b, some e)))
      ⊎ ((r.1 ≡ none) × (commit_file b r ≡ (r.0, none)))
commit_file_lem b (b', none) = inr (refl, refl)
commit_file_lem b (b', some e) = inl (e, refl)

memory_file-IsStateFile : IsStateFile File
memory_file-IsStateFile = record {
  transactions = λ f b. commit_file_lem b (f b);
  views = λ b f. refl;
  creates = λ b ok. refl;
  writes = λ bytes b has ok. (has, refl);
}

abbrev voter_state : PersistentState
voter_state = record {
  current_term = 2;
  voted_for = "b";
  peers = some ("b" ∷ "c" ∷ []);
  self_member = some true;
  last_included_index = 0;
  last_included_term = 0;
  snapshot = [];
  log = entry 1 1 ∷ [];
}

-- A codec that reads back the one state that it writes.
instance abbrev one_state : StateJson
one_state = record { marshal = λ s. (1 ∷ [], none); unmarshal = λ b. inl voter_state }

abbrev file_store : BoltRaftStore File
file_store = record { db = some (true, none) }

abbrev voter : RaftNode (BoltRaftStore File)
voter = record (fresh_node "a" ("b" ∷ "c" ∷ []) (some file_store)) {
  current_term = 2;
  voted_for = "b";
  log = entry 1 1 ∷ [];
}

new_raft_node-save_example :
    new_raft_node "a" ("z" ∷ []) (persist voter).0.store
    ≡ (some (restarted ("z" ∷ []) (persist voter).0), none)
unfolding persist save save_bytes save_transaction persistent_state clone_peers
new_raft_node-save_example =
    new_raft_node-save memory_file-IsStateFile voter ("z" ∷ []) file_store refl refl refl
