-- ===== src/Raft/Apply/Order.antt =====
-- ApplyCommitted feeds the committed entries to the state machine, each once and in the order of the
-- log, and comes to an end.
use rv_key_value.Base.{
  get_elem?-bound, ℕ, zero, suc, ◌+◌, ◌-◌, ◌≤◌, ◌<◌, Option, none, some, ◌≡◌, refl, sym, ap, ◌∙◌,
  subst, arith, length, ret, Returns, Returns-map, Returns-bind,
}
use rv_key_value.Raft.Types.{StableStore, StateMachine, Error}
use rv_key_value.Raft.Membership.{MembershipJson}
use rv_key_value.Raft.Node.{RaftNode}
use rv_key_value.Raft.Log.{last_log_index}
use rv_key_value.Raft.Log.WellFormed.{IsWellFormed, last_log_index_lem}
use rv_key_value.Raft.Apply.{stop, again, apply_turn, apply_loop, apply_committed}
use rv_key_value.Raft.Apply.Changing.{AppliedTo, KeepsLog}
use rv_key_value.Raft.Apply.Turns.{
  feed, unapplied, unapplied-next, feed_more, IsCaughtUp, TurnIs, apply_turn-TurnIs,
}

module _ {D M : Type 0} ⦃stable : StableStore D⦄ ⦃json : MembershipJson⦄
    ⦃machine : StateMachine M⦄ where
  -- What ApplyCommitted returns.
  abbrev pub Fed : RaftNode D → M → RaftNode D × M × Option Error → Type 0
  Fed n m r =
      KeepsLog n r.0
      × (r.2 ≡ none
          → (n.last_applied ≤ r.0.last_applied)
            × (n.commit_index ≤ r.0.commit_index)
            × (feed (unapplied (r.0.last_applied - n.last_applied) n) m ≡ some r.1)
            × IsCaughtUp r.0)

  Fed-stop :
      (n : RaftNode D) (m : M) (n' : RaftNode D) (m' : M) (err : Option Error)
      → TurnIs n m (stop n' m' err)
      → Fed n m (n', m', err)
  unfolding TurnIs feed
  Fed-stop n m n' m' err (k, f) = (
    k,
    λ e.
        let (en, em, c) = f e in
        let nothing : n.last_applied - n.last_applied ≡ 0 = omega arith in
        subst
          (λ z.
            (n.last_applied ≤ z.last_applied)
            × (n.commit_index ≤ z.commit_index)
            × (feed (unapplied (z.last_applied - n.last_applied) n) m ≡ some m')
            × IsCaughtUp z)
          (sym en)
          (
            omega arith,
            omega arith,
            ap (λ (k : ℕ). feed (unapplied k n) m) nothing ∙ ap some (sym em),
            c,
          ),
  )

  Fed-again :
      (n : RaftNode D) (m : M) (n' : RaftNode D) (m' : M) (r : RaftNode D × M × Option Error)
      → IsWellFormed n
      → TurnIs n m (again n' m')
      → Fed n' m' r
      → Fed n m r
  unfolding TurnIs
  Fed-again n m n' m' r w (e, here, a, fed) ((shape, log, included), f) = (
    (shape, log ∙ a.log, included ∙ a.included),
    λ ok.
        let (low, commit, order, c) = f ok in
        let k = r.0.last_applied - n'.last_applied in
        let more : r.0.last_applied - n.last_applied ≡ suc k = omega (arith, a) in
        (
          omega (arith, a),
          omega (arith, a),
          ap (λ es. feed es m)
                (ap (λ (j : ℕ). unapplied j n) more
                  ∙ unapplied-next n n' k e here w.included_applied a)
              ∙ feed_more e (unapplied k n') m m' fed
              ∙ order,
          c,
        ),
  )

  again_lem :
      (n : RaftNode D) (m : M) (n' : RaftNode D) (m' : M)
      → TurnIs n m (again n' m')
      → AppliedTo n (suc n.last_applied) n'
        × (n.last_applied - n.last_included_index < length n'.log)
  unfolding TurnIs
  again_lem n m n' m' (e, here, a, fed) =
      (a, rw a.log (get_elem?-bound n.log (n.last_applied - n.last_included_index) here))

  apply_loop-Fed :
      (fuel : ℕ) (n : RaftNode D) (m : M)
      → IsWellFormed n
      → n.last_included_index + length n.log - n.last_applied < fuel
      → Returns
          (apply_loop fuel n m)
          (λ o. (r : RaftNode D × M × Option Error) × (o ≡ some r) × Fed n m r)
  unfolding apply_loop
  apply_loop-Fed zero n m w enough = absurd (omega arith)
  apply_loop-Fed (suc fuel) n m w enough =
      Returns-bind (TurnIs n m)
        (λ o. (r : RaftNode D × M × Option Error) × (o ≡ some r) × Fed n m r) (apply_turn n m) _
        (apply_turn-TurnIs n m w)
        (λ t is.
          elim t
              as (λ t.
                TurnIs n m t
                → Returns {A = Option (RaftNode D × M × Option Error)}
                    (elim t [
                      | stop n' m' err ↦ ret (some (n', m', err))
                      | again n' m' ↦ apply_loop fuel n' m'
                    ])
                    (λ o. (r : RaftNode D × M × Option Error) × (o ≡ some r) × Fed n m r)) [
                      | stop n' m' err ↦ λ is. ((n', m', err), refl, Fed-stop n m n' m' err is)
                      | again n' m' ↦ λ is.
                          let (a, inside) = again_lem n m n' m' is in
                          Returns-map (apply_loop fuel n' m')
                            (apply_loop-Fed fuel n' m' a.shape
                              (omega (arith, a, enough, inside, w, ap length a.log)))
                            (λ o (r, e, f). (r, e, Fed-again n m n' m' r w is f))
                    ]
            is)

  -- ApplyCommitted, run alone, does not panic on a well-formed node, and comes to an end: the fuel is
  -- enough. It keeps the log. If it returns no error, the state machine was fed the entries from the
  -- last applied one on up to the new last applied one, each once, in the order of the log and without
  -- an error, except for the membership commands, all of which could be read; the commit index did not
  -- fall, and it or the end of the log is reached.
  pub apply_committed-Fed :
      (n : RaftNode D) (m : M)
      → IsWellFormed n
      → Returns
          (apply_committed n m)
          (λ o. (r : RaftNode D × M × Option Error) × (o ≡ some r) × Fed n m r)
  unfolding apply_committed
  apply_committed-Fed n m w =
      apply_loop-Fed (suc (last_log_index n - n.last_applied)) n m w
        (omega (arith, last_log_index_lem n w))
