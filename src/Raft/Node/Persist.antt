-- ===== src/Raft/Node/Persist.antt =====
-- persistLocked writes to the store and to nothing else.
use rv_key_value.Base.{Option, none, some, ◌≡◌, refl, sym, ap, subst}
use rv_key_value.Raft.Types.{StableStore}
use rv_key_value.Raft.Node.{RaftNode, persistent_state, persist_to, persist}

module _ {D : Type 0} ⦃stable : StableStore D⦄ where
  persist_to_store :
      (d : Option D) (n : RaftNode D)
      → n.store ≡ d
      → (persist_to d n).0 ≡ record n { store = (persist_to d n).0.store }
  unfolding persist_to
  persist_to_store none n e = refl
  persist_to_store (some d) n e = refl

  pub persist_lem : (n : RaftNode D) → (persist n).0 ≡ record n { store = (persist n).0.store }
  unfolding persist
  persist_lem n = persist_to_store n.store n refl

  -- Without a store nothing is written, and the call succeeds.
  pub persist_without : (n : RaftNode D) → n.store ≡ none → persist n ≡ (n, none)
  unfolding persist
  persist_without n e = ap (λ d. persist_to d n) e

  -- With a store, it gets the node's persistent state.
  pub persist_with :
      (n : RaftNode D) (d : D)
      → n.store ≡ some d
      → persist n ≡ (
        record n { store = some (stable.save (persistent_state n) d).0 },
        (stable.save (persistent_state n) d).1,
      )
  unfolding persist
  persist_with n d e = ap (λ d'. persist_to d' n) e

  -- A property that holds whatever the store is survives persisting.
  pub persist-keeps :
      (P : RaftNode D → Type 0) (n : RaftNode D)
      → ((d : Option D) → P (record n { store = d }))
      → P (persist n).0
  persist-keeps P n h = subst P (sym (persist_lem n)) (h (persist n).0.store)

  pub current_term-persist : (n : RaftNode D) → (persist n).0.current_term ≡ n.current_term
  current_term-persist n = ap (λ m. m.current_term) (persist_lem n)

  pub voted_for-persist : (n : RaftNode D) → (persist n).0.voted_for ≡ n.voted_for
  voted_for-persist n = ap (λ m. m.voted_for) (persist_lem n)
