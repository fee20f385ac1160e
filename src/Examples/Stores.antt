-- ===== src/Examples/Stores.antt =====
-- The key-value state machine over a bucket that is a list.
use rv_key_value.Base.{
  ◌≢◌, String, Option, none, some, [], ◌∷◌, ◌++◌, ◌≡◌, ◌⊎◌, inl, inr, refl, sym, ap, ◌∙◌, str_eq,
  if◌then◌else◌,
}
use rv_key_value.Base.Map.{Map, lookup, insert, erase, lookup-insert, lookup-erase}
use rv_key_value.Raft.Types.{Bytes, Error}
use rv_key_value.Store.Command.{KvJson, put, decode_command}
use rv_key_value.Store.Database.{Database}
use rv_key_value.Store.Machine.{
  snapshot, restore_snapshot, snapshot, restore_snapshot, KvStateMachine, load_entries,
  apply_entry_to, get,
}
use rv_key_value.Store.Behaviour.{
  read_after, stored, IsBolt, IsMirrored, get-apply_entry_to, apply_entry_to-IsMirrored,
}
use rv_key_value.Store.Snapshots.{get-restore_snapshot}
use rv_key_value.Examples.{entry}

abbrev pub flipped : Map Bytes → Map Bytes
flipped [] = []
flipped (x ∷ xs) = flipped xs ++ x ∷ []

abbrev pub commit : Map Bytes → Map Bytes × Option Error → Map Bytes × Option Error
commit b (b', none) = (b', none)
commit b (b', some e) = (b, some e)

instance abbrev pub bucket : Database (Map Bytes)
bucket = record {
  update = λ f b. commit b (f b);
  create_bucket = λ b. (b, none);
  delete_bucket = λ b. ([], none);
  put_key = λ k v b. (insert k v b, none);
  delete_key = λ k b. (erase k b, none);
  entries = λ b. (flipped b, none);
}

load_last :
    (xs m : Map Bytes) (k : String) (v : Bytes)
    → load_entries (xs ++ (k, v) ∷ []) m ≡ insert k v (load_entries xs m)
unfolding load_entries
load_last [] m k v = refl
load_last ((j, w) ∷ xs) m k v = load_last xs (insert j w m) k v

pub stored_lem : (b : Map Bytes) (k : String) → stored b k ≡ lookup k b
unfolding stored load_entries lookup
stored_lem [] k = refl
stored_lem ((j, v) ∷ b) k =
    ap (lookup k) (load_last (flipped b) [] j v)
    ∙ lookup-insert j k v (load_entries (flipped b) [])
    ∙ ap (λ o. if str_eq j k then some v else o) (stored_lem b k)

commit_lem :
    (b : Map Bytes) (r : Map Bytes × Option Error)
    → ((e : Error) × (commit b r ≡ (b, some e))) ⊎ ((r.1 ≡ none) × (commit b r ≡ (r.0, none)))
commit_lem b (b', none) = inr (refl, refl)
commit_lem b (b', some e) = inl (e, refl)

pub bucket-IsBolt : IsBolt (Map Bytes)
bucket-IsBolt = record {
  transactions = λ f b. commit_lem b (f b);
  creates = λ b k ok. refl;
  puts = λ j v b k ok.
      stored_lem (insert j v b) k
      ∙ lookup-insert j k v b
      ∙ ap (λ o. if str_eq j k then some v else o) (sym (stored_lem b k));
  deletes = λ j b k ok.
      stored_lem (erase j b) k
      ∙ lookup-erase j k b
      ∙ ap (λ o. if str_eq j k then none else o) (sym (stored_lem b k));
}

-- Every document is a command that writes to "x".
instance abbrev pub writes : KvJson
writes = record {
  marshal = λ c. (c.value, none);
  unmarshal = λ b. inl (record { operation = put; key = "x"; value = b });
  marshal_map = λ m. ([], none);
  unmarshal_map = λ b. inl [];
}

abbrev empty_store : KvStateMachine (Map Bytes)
empty_store = record { data_map = []; db = some [] }

known : {b : Map Bytes} → some [] ≡ some b → [] ≡ b
known e = cc

empty_store-IsMirrored : IsMirrored empty_store
unfolding get
empty_store-IsMirrored b e k = ap (λ z. stored z k) (sym (known e)) ∙ stored_lem [] k

get-apply_entry_to_example :
    let (s', err) = apply_entry_to (entry 1 1) empty_store in
    get "x" s' ≡ elim err [
      | some e ↦ get "x" empty_store
      | none ↦ elim (decode_command (1 ∷ [])) [
        | inl c ↦ read_after c "x" (get "x" empty_store)
        | inr e ↦ get "x" empty_store
      ]
    ]
get-apply_entry_to_example = get-apply_entry_to (entry 1 1) empty_store "x"

apply_entry_to-IsMirrored_example : IsMirrored (apply_entry_to (entry 1 1) empty_store).0
apply_entry_to-IsMirrored_example =
    apply_entry_to-IsMirrored bucket-IsBolt (entry 1 1) empty_store empty_store-IsMirrored

-- A codec that reads back the map of one key.
abbrev one_map : KvJson
one_map = record {
  marshal = λ c. (c.value, none);
  unmarshal = λ b. inl (record { operation = put; key = "x"; value = b });
  marshal_map = λ m. (7 ∷ [], none);
  unmarshal_map = λ b. inl (("x", 5 ∷ []) ∷ []);
}

abbrev one_key : KvStateMachine (Map Bytes)
one_key = record { data_map = ("x", 5 ∷ []) ∷ []; db = none }

abbrev seven : Bytes
seven = 7 ∷ []

some_byte : seven ≢ []
some_byte e = cc

get-restore_snapshot_example :
    let (t', err) =
      restore_snapshot ⦃json = one_map⦄ (snapshot ⦃json = one_map⦄ one_key).0 empty_store in
    get "x" t' ≡ elim err [ some e ↦ get "x" empty_store | none ↦ get "x" one_key ]
get-restore_snapshot_example =
    get-restore_snapshot ⦃json = one_map⦄ one_key empty_store "x" some_byte refl
