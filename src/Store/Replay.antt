-- ===== src/Store/Replay.antt =====
-- A state machine that is ahead of its node, as the database of the store is when a node restarts: what
-- comes of entries that it is given a second time.
use rv_key_value.Base.{
  Bool, true, false, ℕ, zero, suc, ◌+◌, ◌-◌, ◌≤◌, ◌≡◌, ◌⊎◌, inl, inr, refl, sym, ap, ◌∙◌, subst,
  fun_ext, arith, String, Option, none, some, List, [], ◌∷◌, ◌++◌, length, take, drop, Returns,
  Returns-map, str_eq, if◌then◌else◌,
}
use rv_key_value.Raft.Types.{Bytes, Error, LogEntry, StableStore}
use rv_key_value.Raft.Membership.{
  MembershipJson, Decoded, not_membership, invalid, decoded, decode_membership_change,
}
use rv_key_value.Raft.Node.{RaftNode}
use rv_key_value.Raft.Log.WellFormed.{IsWellFormed}
use rv_key_value.Raft.Apply.{apply_committed}
use rv_key_value.Raft.Apply.Changing.{KeepsLog}
use rv_key_value.Raft.Apply.Turns.{unapplied, IsCaughtUp}
use rv_key_value.Raft.Apply.Order.{Fed, apply_committed-Fed}
use rv_key_value.Store.Command.{
  KvCommand, KvOperation, KvJson, put, delete, noop, other, decode_command,
}
use rv_key_value.Store.Database.{Database}
use rv_key_value.Store.Machine.{KvStateMachine, kv_state_machine}
use rv_key_value.Store.Behaviour.{read_after}
use rv_key_value.Store.Refinement.{
  Contents, after_command, after_decoded, after_entry, after_entries, Holds, feed-Holds, Implements,
}

-- Whether a function of the old value gives every value the same one, or its own.
abbrev IsSettled : (Option Bytes → Option Bytes) → Type 0
IsSettled f = ((x y : Option Bytes) → f x ≡ f y) ⊎ ((x : Option Bytes) → f x ≡ x)

if-IsSettled : (b : Bool) (new : Option Bytes) → IsSettled (λ old. if b then new else old)
if-IsSettled true new = inl (λ x y. refl)
if-IsSettled false new = inr (λ x. refl)

read_after-IsSettled :
    (o : KvOperation) (key k : String) (v : Bytes)
    → IsSettled (read_after (record { operation = o; key = key; value = v }) k)
unfolding read_after
read_after-IsSettled put key k v = if-IsSettled (str_eq key k) (some v)
read_after-IsSettled delete key k v = if-IsSettled (str_eq key k) none
read_after-IsSettled noop key k v = inr (λ x. refl)
read_after-IsSettled (other t) key k v = inr (λ x. refl)

-- The same of the value of a key, as a function of the whole map.
abbrev Settles : (Contents → Contents) → String → Type 0
Settles g k = ((f f' : Contents) → g f k ≡ g f' k) ⊎ ((f : Contents) → g f k ≡ f k)

after_command-Settles : (d : KvCommand ⊎ Error) (k : String) → Settles (after_command d) k
after_command-Settles (inr err) k = inr (λ f. refl)
after_command-Settles (inl c) k = elim (read_after-IsSettled c.operation c.key k c.value) [
  | inl same ↦ inl (λ f f'. same (f k) (f' k))
  | inr own ↦ inr (λ f. own (f k))
]

after_decoded-Settles :
    (d : Decoded) (c : KvCommand ⊎ Error) (k : String) → Settles (after_decoded d c) k
after_decoded-Settles not_membership c k = after_command-Settles c k
after_decoded-Settles (invalid err) c k = inr (λ f. refl)
after_decoded-Settles (decoded change) c k = inr (λ f. refl)

take_more :
    {A : Type 0} (j k : ℕ) (xs : List A) → j ≤ k → (ys : List A) × (take k xs ≡ take j xs ++ ys)
take_more zero k xs low = (take k xs, refl)
take_more (suc j) zero xs low = absurd (omega (arith, low))
take_more (suc j) (suc k) [] low = ([], refl)
take_more (suc j) (suc k) (x ∷ xs) low =
    let (ys, e) = take_more j k xs (omega (arith, low)) in (ys, ap (λ l. x ∷ l) e)

module _ ⦃changes : MembershipJson⦄ ⦃json : KvJson⦄ where
  after_entries-Settles : (es : List LogEntry) (k : String) → Settles (after_entries es) k
  after_entries-Settles [] k = inr (λ f. refl)
  after_entries-Settles (e ∷ es) k = elim (after_entries-Settles es k) [
    | inl same ↦ inl (λ f f'. same (after_entry e f) (after_entry e f'))
    | inr own ↦
        elim (after_decoded-Settles (decode_membership_change e.command) (decode_command e.command)
          k) [
            | inl same ↦
                inl (λ f f'. own (after_entry e f) ∙ same f f' ∙ sym (own (after_entry e f')))
            | inr own' ↦ inr (λ f. own (after_entry e f) ∙ own' f)
          ]
  ]

  after_entries-twice :
      (es : List LogEntry) (f : Contents)
      → after_entries es (after_entries es f) ≡ after_entries es f
  after_entries-twice es f = fun_ext (λ k. elim (after_entries-Settles es k) [
    | inl same ↦ same (after_entries es f) f
    | inr own ↦ own (after_entries es f)
  ])

  after_entries-append :
      (xs ys : List LogEntry) (f : Contents)
      → after_entries (xs ++ ys) f ≡ after_entries ys (after_entries xs f)
  after_entries-append [] ys f = refl
  after_entries-append (x ∷ xs) ys f = after_entries-append xs ys (after_entry x f)

  -- Entries that were applied before change nothing more, once all of them have been applied again.
  pub after_entries-take :
      (j k : ℕ) (es : List LogEntry) (f : Contents)
      → j ≤ k
      → after_entries (take k es) (after_entries (take j es) f) ≡ after_entries (take k es) f
  after_entries-take j k es f low =
      let (ys, e) = take_more j k es low in
      ap (λ l. after_entries l (after_entries (take j es) f)) e
      ∙ after_entries-append (take j es) ys (after_entries (take j es) f)
      ∙ ap (after_entries ys) (after_entries-twice (take j es) f)
      ∙ sym (after_entries-append (take j es) ys f)
      ∙ ap (λ l. after_entries l f) (sym e)

replayed_enough :
    {D : Type 0} (n n' : RaftNode D) (j : ℕ)
    → n.last_applied + j ≤ n.commit_index
    → n.last_applied + j ≤ n.last_included_index + length n.log
    → n.commit_index ≤ n'.commit_index
    → KeepsLog n n'
    → IsCaughtUp n'
    → j ≤ n'.last_applied - n.last_applied
replayed_enough n n' j committed there commit (w, log, included) (inl done) =
    omega (arith, committed, commit, done)
replayed_enough n n' j committed there commit (w, log, included) (inr done) =
    omega (arith, there, ap length log, included, done)

module _ {D B : Type 0} ⦃changes : MembershipJson⦄ ⦃json : KvJson⦄ (n : RaftNode D)
    (f : Contents) where
  -- The state machine has been given `j` more of the node's committed entries than the node knows of.
  abbrev pub IsAhead : ℕ → KvStateMachine B → Type 0
  IsAhead j m =
      Holds m (after_entries (unapplied j n) f)
      × (n.last_applied + j ≤ n.commit_index)
      × (n.last_applied + j ≤ n.last_included_index + length n.log)

module _ {D B : Type 0} ⦃stable : StableStore D⦄ ⦃changes : MembershipJson⦄ ⦃database : Database B⦄
    ⦃json : KvJson⦄ (n : RaftNode D) (f : Contents) where
  replayed :
      (j : ℕ) (m : KvStateMachine B) (r : RaftNode D × KvStateMachine B × Option Error)
      → IsAhead n f j m
      → Fed n m r
      → Implements n f r
  replayed j m (n', m', some err) ahead fed = fed.0.0
  replayed j m (n', m', none) (h, committed, there) fed =
      let (low, commit, order, caught_up) = fed.1 refl in
      let k = n'.last_applied - n.last_applied in
      let enough : j ≤ k = replayed_enough n n' j committed there commit fed.0 caught_up in
      let l = drop (n.last_applied - n.last_included_index) n.log in
      (
        subst (Holds m') (after_entries-take j k l f enough)
            (feed-Holds (unapplied k n) m m' (after_entries (unapplied j n) f) order h),
        caught_up,
      )

  -- ApplyCommitted catches up with a state machine that is ahead of its node.
  pub replays :
      (j : ℕ) (m : KvStateMachine B)
      → IsWellFormed n
      → IsAhead n f j m
      → Returns (apply_committed n m) (λ o.
        (r : RaftNode D × KvStateMachine B × Option Error) × (o ≡ some r) × Implements n f r)
  replays j m w ahead =
      Returns-map (apply_committed n m) (apply_committed-Fed n m w)
        (λ o (r, e, fed). (r, e, replayed j m r ahead fed))
