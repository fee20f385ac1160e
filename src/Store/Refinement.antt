-- ===== src/Store/Refinement.antt =====
-- A node with a key-value state machine in memory is a replicated map: what ApplyCommitted makes it
-- read is what the committed commands make of an abstract map.
use rv_key_value.Base.{
  ◌-◌, ◌≡◌, ◌⊎◌, inl, inr, refl, sym, ap, ◌∙◌, subst, String, Option, none, some, List, [], ◌∷◌,
  Returns, Returns-map,
}
use rv_key_value.Raft.Types.{Bytes, Error, LogEntry, StableStore}
use rv_key_value.Raft.Membership.{
  MembershipJson, Decoded, not_membership, invalid, decoded, decode_membership_change,
}
use rv_key_value.Raft.Node.{RaftNode}
use rv_key_value.Raft.Log.WellFormed.{IsWellFormed}
use rv_key_value.Raft.Apply.{apply_committed}
use rv_key_value.Raft.Apply.Turns.{
  accepted_lem, accepted, feed_decoded, feed, feed_entry, unapplied, IsCaughtUp,
}
use rv_key_value.Raft.Apply.Order.{Fed, apply_committed-Fed}
use rv_key_value.Store.Command.{KvCommand, KvJson, decode_command}
use rv_key_value.Store.Database.{Database}
use rv_key_value.Store.Machine.{KvStateMachine, apply_entry_to, get, kv_state_machine}
use rv_key_value.Store.Behaviour.{get-apply_entry_to, some_lem, read_after}

-- The abstract state: the value of each key.
abbrev pub Contents : Type 0
Contents = String → Option Bytes

-- What a decoded command makes of it.
abbrev pub after_command : KvCommand ⊎ Error → Contents → Contents
after_command (inl c) old = λ k. read_after c k (old k)
after_command (inr err) old = old

abbrev pub after_decoded : Decoded → KvCommand ⊎ Error → Contents → Contents
after_decoded not_membership command old = after_command command old
after_decoded (invalid err) command old = old
after_decoded (decoded change) command old = old

module _ ⦃changes : MembershipJson⦄ ⦃json : KvJson⦄ where
  -- An entry with a command of the store; membership changes are not for the store.
  abbrev pub after_entry : LogEntry → Contents → Contents
  after_entry e old =
      after_decoded (decode_membership_change e.command) (decode_command e.command) old

  abbrev pub after_entries : List LogEntry → Contents → Contents
  after_entries [] old = old
  after_entries (e ∷ es) old = after_entries es (after_entry e old)

-- What a decoded command makes of the value of a key, if Apply returns no error.
held_decoded :
    (d : KvCommand ⊎ Error) (err : Option Error) (old v : Option Bytes) (f : Contents) (k : String)
    → err ≡ none
    → old ≡ f k
    → v ≡ elim err [ some e ↦ old | none ↦ elim d [ inl c ↦ read_after c k old | inr e ↦ old ] ]
    → v ≡ after_command d f k
held_decoded (inl c) none old v f k ok same e = e ∙ ap (read_after c k) same
held_decoded (inr e') none old v f k ok same e = e ∙ same
held_decoded d (some e') old v f k ok same e = cc

module _ {B : Type 0} where
  -- The state machine reads what the abstract state holds.
  abbrev pub Holds : KvStateMachine B → Contents → Type 0
  Holds m f = (k : String) → get k m ≡ f k

  module _ ⦃database : Database B⦄ ⦃json : KvJson⦄ where
    -- An Apply without an error.
    applied-Holds :
        (e : LogEntry) (m m' : KvStateMachine B) (f : Contents)
        → accepted (apply_entry_to e m) ≡ some m'
        → Holds m f
        → Holds m' (after_command (decode_command e.command) f)
    applied-Holds e m m' f ok h =
        let (same, no_error) = accepted_lem (apply_entry_to e m) m' ok in
        λ k.
          held_decoded (decode_command e.command) (apply_entry_to e m).1 (get k m) (get k m') f k
            no_error (h k) (ap (get k) (sym same) ∙ get-apply_entry_to e m k)

    module _ ⦃changes : MembershipJson⦄ where
      fed_decoded :
          (d : Decoded) (e : LogEntry) (m m' : KvStateMachine B) (f : Contents)
          → feed_decoded d e m ≡ some m'
          → Holds m f
          → Holds m' (after_decoded d (decode_command e.command) f)
      fed_decoded not_membership e m m' f ok h = applied-Holds e m m' f ok h
      fed_decoded (invalid err) e m m' f ok h = cc
      fed_decoded (decoded change) e m m' f ok h = subst (λ x. Holds x f) (some_lem ok) h

      feed_rest :
          (es : List LogEntry) (o : Option (KvStateMachine B)) (m' : KvStateMachine B)
          → elim o as (λ _. Option (KvStateMachine B)) [ none ↦ none | some m1 ↦ feed es m1 ]
            ≡ some m'
          → (m1 : KvStateMachine B) × (o ≡ some m1) × (feed es m1 ≡ some m')
      feed_rest es none m' e = cc
      feed_rest es (some m1) m' e = (m1, refl, e)

      pub feed-Holds :
          (es : List LogEntry) (m m' : KvStateMachine B) (f : Contents)
          → feed es m ≡ some m'
          → Holds m f
          → Holds m' (after_entries es f)
      unfolding feed feed_entry
      feed-Holds [] m m' f ok h = subst (λ x. Holds x f) (some_lem ok) h
      feed-Holds (e ∷ es) m m' f ok h =
          let (m1, one, rest) = feed_rest es (feed_entry e m) m' ok in
          feed-Holds es m1 m' (after_entry e f) rest
            (fed_decoded (decode_membership_change e.command) e m m1 f one h)

module _ {D B : Type 0} ⦃stable : StableStore D⦄ ⦃changes : MembershipJson⦄ ⦃database : Database B⦄
    ⦃json : KvJson⦄ (n : RaftNode D) (f : Contents) where
  -- What ApplyCommitted has done to a state machine that held `f`, if it returns no error.
  abbrev pub Implements : RaftNode D × KvStateMachine B × Option Error → Type 0
  Implements (n', m', some err) = IsWellFormed n'
  Implements (n', m', none) =
      Holds m' (after_entries (unapplied (n'.last_applied - n.last_applied) n) f) × IsCaughtUp n'

  implements_lem :
      (m : KvStateMachine B) (r : RaftNode D × KvStateMachine B × Option Error)
      → Holds m f
      → Fed n m r
      → Implements r
  implements_lem m (n', m', some err) h fed = fed.0.0
  implements_lem m (n', m', none) h fed =
      let (low, commit, order, caught_up) = fed.1 refl in
      (feed-Holds (unapplied (n'.last_applied - n.last_applied) n) m m' f order h, caught_up)

  -- ApplyCommitted, run alone, implements an abstract map. It does not panic on a well-formed node,
  -- and comes to an end. If the state machine reads what the map holds, and ApplyCommitted returns
  -- no error, then the state machine afterwards, in memory or with a database, reads what the
  -- commands of the committed entries make of the map, in the order of the log and each once: the
  -- entries from the last applied one up to the new last applied one, where membership changes
  -- leave the map alone. The commit index or the end of the log is reached.
  pub apply_committed-Implements :
      (m : KvStateMachine B)
      → IsWellFormed n
      → Holds m f
      → Returns
          (apply_committed n m)
          (λ o. (r : RaftNode D × KvStateMachine B × Option Error) × (o ≡ some r) × Implements r)
  apply_committed-Implements m w h =
      Returns-map (apply_committed n m) (apply_committed-Fed n m w)
        (λ o (r, e, fed). (r, e, implements_lem m r h fed))
