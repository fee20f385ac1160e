-- ===== src/Store/Behaviour.antt =====
-- What the key-value state machine reads after a command, in memory and in its database.
use rv_key_value.Base.{
  String, Option, none, some, [], ◌≡◌, ◌⊎◌, inl, inr, refl, sym, ap, ◌∙◌, str_eq, if◌then◌else◌,
}
use rv_key_value.Base.Map.{Map, lookup, lookup-insert, lookup-erase}
use rv_key_value.Raft.Types.{Bytes, LogEntry, Error}
use rv_key_value.Store.Command.{
  KvCommand, KvOperation, KvJson, put, delete, noop, other, decode_command,
}
use rv_key_value.Store.Database.{Database, and_then, apply_transaction, apply_bolt}
use rv_key_value.Store.Machine.{
  KvStateMachine, load_entries, apply_data, apply_command, written, apply_entry_to, get,
}

-- What a command makes of the value of a key.
unfoldable pub read_after : KvCommand → String → Option Bytes → Option Bytes
read_after c k old = elim c.operation [
  | put ↦ if str_eq c.key k then some c.value else old
  | delete ↦ if str_eq c.key k then none else old
  | noop ↦ old
  | other t ↦ old
]

data_by_type :
    (o : KvOperation) (key k : String) (v : Bytes) (m : Map Bytes)
    → let c : KvCommand = record { operation = o; key = key; value = v } in
      lookup k (apply_data c m) ≡ read_after c k (lookup k m)
unfolding apply_data read_after
data_by_type put key k v m = lookup-insert key k v m
data_by_type delete key k v m = lookup-erase key k m
data_by_type noop key k v m = refl
data_by_type (other t) key k v m = refl

pub lookup-apply_data :
    (c : KvCommand) (k : String) (m : Map Bytes)
    → lookup k (apply_data c m) ≡ read_after c k (lookup k m)
lookup-apply_data c k m = data_by_type c.operation c.key k c.value m

pub some_lem : {A : Type 0} {a b : A} → some a ≡ some b → a ≡ b
some_lem e = cc

module _ {B : Type 0} ⦃database : Database B⦄ where
  -- What the database holds, as NewBoltKVStateMachine would load it.
  unfoldable pub stored : B → String → Option Bytes
  stored b k = lookup k (load_entries (database.entries b).0 [])

-- What the documents of bbolt say of a bucket. An update fails and changes nothing, or commits what
-- its transaction did without an error.
pub record IsBolt (B : Type 0) ⦃database : Database B⦄ : Type 0 where
  pub transactions :
      (f : B → B × Option Error) (b : B)
      → ((e : Error) × (database.update f b ≡ (b, some e)))
        ⊎ (((f b).1 ≡ none) × (database.update f b ≡ ((f b).0, none)))
  pub creates :
      (b : B) (k : String)
      → (database.create_bucket b).1 ≡ none
      → stored (database.create_bucket b).0 k ≡ stored b k
  pub puts :
      (j : String) (v : Bytes) (b : B) (k : String)
      → (database.put_key j v b).1 ≡ none
      → stored (database.put_key j v b).0 k ≡ (if str_eq j k then some v else stored b k)
  pub deletes :
      (j : String) (b : B) (k : String)
      → (database.delete_key j b).1 ≡ none
      → stored (database.delete_key j b).0 k ≡ (if str_eq j k then none else stored b k)

module _ {B : Type 0} ⦃database : Database B⦄ where
  -- Memory and database agree, if there is a database.
  abbrev pub IsMirrored : KvStateMachine B → Type 0
  IsMirrored s = (b : B) → s.db ≡ some b → (k : String) → stored b k ≡ get k s

  bucket_by_type :
      IsBolt B
      → (o : KvOperation) (key k : String) (v : Bytes) (b1 : B)
      → let c : KvCommand = record { operation = o; key = key; value = v } in
        let r : B × Option Error = elim o [
          | noop ↦ (b1, none)
          | put ↦ database.put_key key v b1
          | delete ↦ database.delete_key key b1
          | other t ↦ (b1, none)
        ] in
        r.1 ≡ none → stored r.0 k ≡ read_after c k (stored b1 k)
  unfolding read_after
  bucket_by_type law put key k v b1 ok = law.puts key v b1 k ok
  bucket_by_type law delete key k v b1 ok = law.deletes key b1 k ok
  bucket_by_type law noop key k v b1 ok = refl
  bucket_by_type law (other t) key k v b1 ok = refl

  after_bucket :
      IsBolt B
      → (c : KvCommand) (k : String) (r : B × Option Error) (old : Option Bytes)
      → (r.1 ≡ none → stored r.0 k ≡ old)
      → let t = and_then r (λ b1. elim c.operation [
        | noop ↦ (b1, none)
        | put ↦ database.put_key c.key c.value b1
        | delete ↦ database.delete_key c.key b1
        | other t ↦ (b1, none)
      ]) in
        t.1 ≡ none → stored t.0 k ≡ read_after c k old
  after_bucket law c k (b1, some e) old same ok = cc
  after_bucket law c k (b1, none) old same ok =
      bucket_by_type law c.operation c.key k c.value b1 ok ∙ ap (read_after c k) (same refl)

  stored-apply_transaction :
      IsBolt B
      → (c : KvCommand) (b : B) (k : String) → (apply_transaction c b).1 ≡ none
      → stored (apply_transaction c b).0 k ≡ read_after c k (stored b k)
  unfolding apply_transaction
  stored-apply_transaction law c b k ok =
      after_bucket law c k (database.create_bucket b) (stored b k) (λ e. law.creates b k e) ok

  get-written :
      (c : KvCommand) (m : Map Bytes) (k : String) (r : B × Option Error)
      → let (s', err) = written c m r in
        get k s' ≡ elim err [ some e ↦ lookup k m | none ↦ read_after c k (lookup k m) ]
  unfolding written get
  get-written c m k (b, some e) = refl
  get-written c m k (b, none) = lookup-apply_data c k m

  get_command :
      (c : KvCommand) (m : Map Bytes) (k : String) (db : Option B)
      → let (s', err) = apply_command c m db in
        get k s' ≡ elim err [ some e ↦ lookup k m | none ↦ read_after c k (lookup k m) ]
  unfolding apply_command get
  get_command c m k none = lookup-apply_data c k m
  get_command c m k (some b) = get-written c m k (apply_bolt c b)

  get_decoded :
      (d : KvCommand ⊎ Error) (s : KvStateMachine B) (k : String)
      → let r : KvStateMachine B × Option Error = elim d [
        | inr err ↦ (s, some err)
        | inl c ↦ apply_command c s.data_map s.db
      ] in
        get k r.0 ≡ elim r.1 [
          | some e ↦ get k s
          | none ↦ elim d [ inl c ↦ read_after c k (get k s) | inr e ↦ get k s ]
        ]
  unfolding get
  get_decoded (inr err) s k = refl
  get_decoded (inl c) s k = get_command c s.data_map k s.db

  -- Apply changes what the state machine reads as the entry's command says, if it returns no error,
  -- and leaves it as it was if it returns one.
  pub get-apply_entry_to :
      ⦃json : KvJson⦄ (entry : LogEntry) (s : KvStateMachine B) (k : String)
      → let (s', err) = apply_entry_to entry s in
        get k s' ≡ elim err [
          | some e ↦ get k s
          | none ↦ elim (decode_command entry.command) [
            | inl c ↦ read_after c k (get k s)
            | inr e ↦ get k s
          ]
        ]
  unfolding apply_entry_to
  get-apply_entry_to ⦃json⦄ entry s k = get_decoded (decode_command entry.command) s k

  agrees_updating :
      IsBolt B
      → (c : KvCommand) (s : KvStateMachine B) (b : B) → ((k : String) → stored b k ≡ get k s)
      → IsMirrored (written c s.data_map (apply_bolt c b)).0
  unfolding apply_bolt written get
  agrees_updating law c s b same = elim (law.transactions (apply_transaction c) b) [
    | inl (e, failed) ↦ rw failed (λ b' eq k. ap (λ z. stored z k) (sym (some_lem eq)) ∙ same k)
    | inr (ok, done) ↦ rw done (λ b' eq k.
        ap (λ z. stored z k) (sym (some_lem eq))
        ∙ stored-apply_transaction law c b k ok
        ∙ ap (read_after c k) (same k)
        ∙ sym (lookup-apply_data c k s.data_map))
  ]

  agrees_commanding :
      IsBolt B
      → (c : KvCommand) (s : KvStateMachine B) (db : Option B)
      → ((b : B) → db ≡ some b → (k : String) → stored b k ≡ get k s)
      → IsMirrored (apply_command c s.data_map db).0
  unfolding apply_command
  agrees_commanding law c s none same = λ b e. cc
  agrees_commanding law c s (some b) same = agrees_updating law c s b (same b refl)

  agrees_decoding :
      IsBolt B
      → (d : KvCommand ⊎ Error) (s : KvStateMachine B) → IsMirrored s
      → let r : KvStateMachine B × Option Error = elim d [
        | inr err ↦ (s, some err)
        | inl c ↦ apply_command c s.data_map s.db
      ] in
        IsMirrored r.0
  agrees_decoding law (inr err) s same = same
  agrees_decoding law (inl c) s same = agrees_commanding law c s s.db same

  -- Apply keeps memory and database in agreement, whether it returns an error or not: what the database
  -- holds under a key, as NewBoltKVStateMachine would load it, is what Get reads. The bucket behaves as
  -- bbolt documents, and the two agreed before.
  pub apply_entry_to-IsMirrored :
      ⦃json : KvJson⦄
      → IsBolt B
      → (entry : LogEntry) (s : KvStateMachine B) → IsMirrored s
      → IsMirrored (apply_entry_to entry s).0
  unfolding apply_entry_to
  apply_entry_to-IsMirrored ⦃json⦄ law entry s same =
      agrees_decoding law (decode_command entry.command) s same
