-- ===== src/Raft/Apply/Turns.antt =====
-- An iteration of ApplyCommitted: which entry it feeds to the state machine.
use rv_key_value.Base.{
  take-drop, ℕ, suc, ◌+◌, ◌-◌, ◌≤◌, ◌<◌, Option, none, some, List, [], ◌∷◌, ◌≡◌, ◌⊎◌, inl, inr,
  refl, sym, ap, ◌∙◌, subst, arith, length, get_elem?, take, drop, ret, ◌>>=◌, Returns,
  Returns-bind,
}
use rv_key_value.Raft.Types.{LogEntry, StableStore, StateMachine, Error}
use rv_key_value.Raft.Membership.{
  MembershipJson, Decoded, not_membership, invalid, decoded, decode_membership_change,
}
use rv_key_value.Raft.Node.{RaftNode}
use rv_key_value.Raft.Log.WellFormed.{IsWellFormed}
use rv_key_value.Raft.Steps.Reach.{IsNext, next_committed_entry-IsNext}
use rv_key_value.Raft.Apply.{
  Turn, stop, again, mark_applied, mark_turn, change_turn, apply_committed_membership_change,
  apply_entry, apply_turn,
}
use rv_key_value.Raft.Apply.Changing.{
  AppliedTo, KeepsLog, apply_committed_membership_change-AppliedTo, mark_applied-next,
}

module _ {M : Type 0} where
  -- The state machine after an Apply without an error.
  abbrev pub accepted : M × Option Error → Option M
  accepted (m, none) = some m
  accepted (m, some err) = none

  pub accepted_lem :
      (r : M × Option Error) (m' : M) → accepted r ≡ some m' → (r.0 ≡ m') × (r.1 ≡ none)
  accepted_lem (m, none) m' e = (cc, refl)
  accepted_lem (m, some err) m' e = cc

module _ {M : Type 0} ⦃json : MembershipJson⦄ ⦃machine : StateMachine M⦄ where
  abbrev pub feed_decoded : Decoded → LogEntry → M → Option M
  feed_decoded not_membership e m = accepted (machine.apply e m)
  feed_decoded (invalid err) e m = none
  feed_decoded (decoded change) e m = some m

  -- The entry reaches the state machine, unless it is a membership command. There is no result if the
  -- state machine returns an error, or the membership command is not a valid one.
  unfoldable pub feed_entry : LogEntry → M → Option M
  feed_entry e m = feed_decoded (decode_membership_change e.command) e m

  -- The entries reach the state machine in their order, each without an error.
  unfoldable pub feed : List LogEntry → M → Option M
  feed [] m = some m
  feed (e ∷ es) m = elim (feed_entry e m) [ none ↦ none | some m' ↦ feed es m' ]

  pub feed_more :
      (e : LogEntry) (es : List LogEntry) (m m' : M)
      → feed_entry e m ≡ some m'
      → feed (e ∷ es) m ≡ feed es m'
  unfolding feed
  feed_more e es m m' fed = rw (fed, feed) refl

  feed_entry-decoded :
      (e : LogEntry) (m : M) (d : Decoded)
      → decode_membership_change e.command ≡ d
      → feed_entry e m ≡ feed_decoded d e m
  unfolding feed_entry
  feed_entry-decoded e m d eq = ap (λ d. feed_decoded d e m) eq

-- The entries of the log behind the last applied one, `k` of them.
abbrev pub unapplied : {D : Type 0} → ℕ → RaftNode D → List LogEntry
unapplied k n = take k (drop (n.last_applied - n.last_included_index) n.log)

-- The entries that are left, when the next one is taken.
pub unapplied-next :
    {D : Type 0} (n n' : RaftNode D) (k : ℕ) (e : LogEntry)
    → get_elem? n.log (n.last_applied - n.last_included_index) ≡ some e
    → n.last_included_index ≤ n.last_applied
    → AppliedTo n (suc n.last_applied) n'
    → unapplied (suc k) n ≡ e ∷ unapplied k n'
unapplied-next n n' k e here low a =
    let place : suc (n.last_applied - n.last_included_index)
        ≡ n'.last_applied - n'.last_included_index =
      omega (arith, a) in
    take-drop k (n.last_applied - n.last_included_index) n.log here
    ∙ ap (λ (j : ℕ). e ∷ take k (drop j n.log)) place
    ∙ ap (λ l. e ∷ take k (drop (n'.last_applied - n'.last_included_index) l)) (sym a.log)

-- Nothing is left to apply: the commit index or the end of the log is reached.
abbrev pub IsCaughtUp : {D : Type 0} → RaftNode D → Type 0
IsCaughtUp n =
    (n.commit_index ≤ n.last_applied) ⊎ (n.last_included_index + length n.log ≤ n.last_applied)

module _ {D M : Type 0} ⦃stable : StableStore D⦄ ⦃json : MembershipJson⦄
    ⦃machine : StateMachine M⦄ where
  -- What an iteration does: it stops, or it takes the next entry.
  unfoldable pub TurnIs : RaftNode D → M → Turn D M → Type 0
  TurnIs n m (stop n' m' err) = KeepsLog n n' × (err ≡ none → (n' ≡ n) × (m' ≡ m) × IsCaughtUp n)
  TurnIs n m (again n' m') =
      (e : LogEntry) × (get_elem? n.log (n.last_applied - n.last_included_index) ≡ some e)
      × AppliedTo n (suc n.last_applied) n'
      × (feed_entry e m ≡ some m')

  marked :
      (n : RaftNode D) (m : M) (e : LogEntry)
      → IsWellFormed n
      → e.index ≡ suc n.last_applied
      → n.last_applied < n.commit_index
      → get_elem? n.log (n.last_applied - n.last_included_index) ≡ some e
      → (r : M × Option Error) → feed_entry e m ≡ accepted r
      → TurnIs n m (mark_turn e n r)
  unfolding TurnIs
  marked n m e w index behind here (m', some err) fed = ((w, refl, refl), λ f. cc)
  marked n m e w index behind here (m', none) fed = (
    e,
    here,
    subst (λ (i : ℕ). AppliedTo n i (mark_applied e.index n)) index
        (mark_applied-next n w e.index (omega arith) (omega arith)),
    fed,
  )

  changed_turn :
      (n : RaftNode D) (m : M) (e : LogEntry) (n' : RaftNode D) (err : Option Error)
      → get_elem? n.log (n.last_applied - n.last_included_index) ≡ some e
      → KeepsLog n n' × (err ≡ none → AppliedTo n (suc n.last_applied) n')
      → feed_entry e m ≡ some m
      → TurnIs n m (change_turn m (n', err))
  unfolding TurnIs
  changed_turn n m e n' (some err) here (k, a) fed = (k, λ f. cc)
  changed_turn n m e n' none here (k, a) fed = (e, here, a refl, fed)

  apply_decoded :
      (n : RaftNode D) (m : M) (e : LogEntry)
      → IsWellFormed n
      → e.index ≡ suc n.last_applied
      → n.last_applied < n.commit_index
      → get_elem? n.log (n.last_applied - n.last_included_index) ≡ some e
      → (d : Decoded) → decode_membership_change e.command ≡ d
      → Returns {A = Turn D M}
          (elim d [
            | not_membership ↦ ret (mark_turn e n (machine.apply e m))
            | invalid err ↦ ret (stop n m (some err))
            | decoded change ↦ do
              changed ← apply_committed_membership_change change e.index n
              ret (change_turn m changed)
          ])
          (TurnIs n m)
  unfolding TurnIs
  apply_decoded n m e w index behind here not_membership eq =
      marked n m e w index behind here (machine.apply e m)
        (feed_entry-decoded e m not_membership eq)
  apply_decoded n m e w index behind here (invalid err) eq = ((w, refl, refl), λ f. cc)
  apply_decoded n m e w index behind here (decoded change) eq =
      Returns-bind (λ r. KeepsLog n r.0 × (r.1 ≡ none → AppliedTo n (suc n.last_applied) r.0))
        (TurnIs n m) _ (λ changed. ret (change_turn m changed))
        (subst
          (λ (i : ℕ).
            Returns (apply_committed_membership_change change i n)
              (λ r. KeepsLog n r.0 × (r.1 ≡ none → AppliedTo n (suc n.last_applied) r.0)))
          (sym index)
          (apply_committed_membership_change-AppliedTo n w change (suc n.last_applied) (omega arith)
            (omega arith)))
        (λ r k. changed_turn n m e r.0 r.1 here k (feed_entry-decoded e m (decoded change) eq))

  apply_entry-TurnIs :
      (n : RaftNode D) (m : M) (e : LogEntry)
      → IsWellFormed n
      → e.index ≡ suc n.last_applied
      → n.last_applied < n.commit_index
      → get_elem? n.log (n.last_applied - n.last_included_index) ≡ some e
      → Returns (apply_entry e n m) (TurnIs n m)
  unfolding apply_entry
  apply_entry-TurnIs n m e w index behind here =
      apply_decoded n m e w index behind here (decode_membership_change e.command) refl

  pub apply_turn-TurnIs :
      (n : RaftNode D) (m : M) → IsWellFormed n → Returns (apply_turn n m) (TurnIs n m)
  unfolding apply_turn TurnIs
  apply_turn-TurnIs n m w =
      Returns-bind (IsNext n) (TurnIs n m) _ _ (next_committed_entry-IsNext n w) (λ o next.
        elim next [
          | inl (e, caught_up) ↦ rw e ((w, refl, refl), λ f. (refl, refl, caught_up))
          | inr (e, found, index, behind, here) ↦
              rw found (apply_entry-TurnIs n m e w index behind here)
        ])
