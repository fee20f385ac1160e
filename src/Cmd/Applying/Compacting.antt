-- ===== src/Cmd/Applying/Compacting.antt =====
-- What the loop that applies and compacts keeps, and which snapshot a compacted node holds.
use rv_key_value.Base.{
  ◌≤◌, u64, ◌∙◌, ◌-◌, sym, drop, ◌↔◌, ◌+◌, ◌≡◌, ◌⊎◌, inl, inr, refl, arith, true, Option, none,
  some, List, [], ◌∷◌, All, Bool-cases, Option-cases, Run, ret, Returns, Returns-bind, Returns-map,
  Returns-option,
}
use rv_key_value.Raft.Types.{Bytes, Error, StableStore, StateMachine}
use rv_key_value.Raft.Membership.{MembershipJson}
use rv_key_value.Raft.Node.{RaftNode}
use rv_key_value.Raft.Log.WellFormed.{IsWellFormed}
use rv_key_value.Raft.Apply.{apply_committed, should_snapshot, compact}
use rv_key_value.Raft.Apply.Compaction.{compacting-IsWellFormed, compact-Returns}
use rv_key_value.Raft.Apply.Order.{Fed, apply_committed-Fed}
use rv_key_value.Raft.Append.Outcomes.{store-IsWellFormed}
use rv_key_value.Raft.Log.Accept.{term_view-pos}
use rv_key_value.Cmd.Applying.{
  SnapshotStateMachine, snapshot_threshold_entries, ApplyTurn, Pass, broke, passed, ApplyLoop,
  running, ended, pass_of, take_and_compact, compact_if_due, apply_pass, receive_commit,
  apply_committed_loop,
}

module _ {D M : Type 0} where
  -- What other goroutines do leaves a well-formed node.
  abbrev pub IsSoundAction : (RaftNode D × M → RaftNode D × M) → Type 0
  IsSoundAction e = (n : RaftNode D) (m : M) → IsWellFormed n → IsWellFormed (e (n, m)).0

  pub record IsSoundApplyTurn (turn : ApplyTurn D M) : Type 0 where
    pub before_check : IsSoundAction turn.before_check
    pub before_snapshot : IsSoundAction turn.before_snapshot
    pub before_compact : IsSoundAction turn.before_compact
    pub before_select : IsSoundAction turn.before_select

-- What Compact makes of a node: nothing, or it cuts the log at the last applied index and keeps the
-- snapshot.
abbrev pub IsCut : {D : Type 0} → Bytes → RaftNode D → RaftNode D → Type 0
IsCut bytes n n' =
    ((n'.log ≡ n.log)
      × (n'.last_included_index ≡ n.last_included_index)
      × (n'.snapshot ≡ n.snapshot))
    ⊎ ((n'.log ≡ drop (n.last_applied - n.last_included_index) n.log)
        × (n'.last_included_index ≡ n.last_applied)
        × (n'.snapshot ≡ bytes))

-- 64 entries are applied behind the compacted prefix, or more: with the sum in 64 bits, as the code
-- computes it.
abbrev pub IsDue : {D : Type 0} → RaftNode D → Type 0
IsDue n = u64 (n.last_included_index + 64) ≤ n.last_applied

should_snapshot_iff :
    {D : Type 0} (n : RaftNode D) → (should_snapshot snapshot_threshold_entries n ≡ true) ↔ IsDue n
unfolding should_snapshot
should_snapshot_iff n = ground arith

compact-IsCut :
    {D : Type 0} ⦃stable : StableStore D⦄ (bytes : Bytes) (n : RaftNode D)
    → IsWellFormed n
    → Returns (compact bytes n) (λ r. IsWellFormed r.0 × IsCut bytes n r.0)
compact-IsCut bytes n w =
    compact-Returns n w bytes (λ m. IsWellFormed m × IsCut bytes n m) (w, inl (refl, refl, refl))
      (λ high known d. (
        store-IsWellFormed d
            (compacting-IsWellFormed n w bytes (term_view-pos n n.last_applied known).1),
        inr (refl, refl, refl),
      ))

module _ {D M : Type 0} ⦃snapshots : SnapshotStateMachine M⦄ where
  -- The snapshot is that of the state `s`; the node is cut as it stands once other goroutines have
  -- acted on it.
  abbrev pub HasCompacted :
      (RaftNode D × M → RaftNode D × M) → RaftNode D × M → RaftNode D → M → Type 0
  HasCompacted before_compact s n' m' =
      ((snapshots.take_snapshot s.1).1 ≡ none)
      × (m' ≡ (before_compact s).1)
      × IsCut (snapshots.take_snapshot s.1).0 (before_compact s).0 n'

  abbrev TakesOrBreaks : (RaftNode D × M → RaftNode D × M) → RaftNode D × M → Pass D M → Type 0
  TakesOrBreaks before_compact s (broke n' m' err) = IsWellFormed n'
  TakesOrBreaks before_compact s (passed n' m') =
      IsWellFormed n' × HasCompacted before_compact s n' m'

module _ {D M : Type 0} ⦃stable : StableStore D⦄ ⦃snapshots : SnapshotStateMachine M⦄ where
  cut_lem :
      (before_compact : RaftNode D × M → RaftNode D × M) (s : RaftNode D × M)
      (r : RaftNode D × Option Error)
      → (snapshots.take_snapshot s.1).1 ≡ none
      → IsWellFormed r.0 × IsCut (snapshots.take_snapshot s.1).0 (before_compact s).0 r.0
      → TakesOrBreaks before_compact s (pass_of (before_compact s).1 r)
  cut_lem before_compact s (n', some err) ok (w, cut) = w
  cut_lem before_compact s (n', none) ok (w, cut) = (w, (ok, refl, cut))

  compacted_lem :
      (before_compact : RaftNode D × M → RaftNode D × M) (s : RaftNode D × M)
      → IsSoundAction before_compact
      → IsWellFormed s.0
      → Returns (take_and_compact before_compact s) (TakesOrBreaks before_compact s)
  unfolding take_and_compact
  compacted_lem before_compact s sound w = elim (Option-cases (snapshots.take_snapshot s.1).1) [
    | inr (err, e) ↦ rw (e, take_and_compact) w
    | inl ok ↦
        rw (ok, take_and_compact)
          (Returns-bind
            (λ r. IsWellFormed r.0 × IsCut (snapshots.take_snapshot s.1).0 (before_compact s).0 r.0)
            (TakesOrBreaks before_compact s) _ _
            (compact-IsCut (snapshots.take_snapshot s.1).0 (before_compact s).0 (sound s.0 s.1 w))
            (λ r h. cut_lem before_compact s r ok h))
  ]

module _ {D M : Type 0} ⦃stable : StableStore D⦄ ⦃json : MembershipJson⦄ ⦃machine : StateMachine M⦄
    ⦃snapshots : SnapshotStateMachine M⦄ where
  -- What a pass comes to. ApplyCommitted has fed the state machine; and either too few entries are
  -- applied for a snapshot, or the log may be cut.
  abbrev pub IsPass : ApplyTurn D M → RaftNode D → M → Pass D M → Type 0
  IsPass turn n m (broke n' m' err) = IsWellFormed n'
  IsPass turn n m (passed n' m') =
      IsWellFormed n'
      × ((n1 : RaftNode D) × (m1 : M) × Fed n m (n1, m1, none)
          × ((¬ IsDue (turn.before_check (n1, m1)).0 × ((n', m') ≡ turn.before_check (n1, m1)))
              ⊎ (IsDue (turn.before_check (n1, m1)).0
                  × HasCompacted turn.before_compact
                      (turn.before_snapshot (turn.before_check (n1, m1))) n' m')))

  due_lem :
      (turn : ApplyTurn D M) (n : RaftNode D) (m : M) (n1 : RaftNode D) (m1 : M) (p : Pass D M)
      → Fed n m (n1, m1, none)
      → IsDue (turn.before_check (n1, m1)).0
      → TakesOrBreaks turn.before_compact (turn.before_snapshot (turn.before_check (n1, m1))) p
      → IsPass turn n m p
  due_lem turn n m n1 m1 (broke n' m' err) fed due w = w
  due_lem turn n m n1 m1 (passed n' m') fed due (w, taken) = (w, (n1, m1, fed, inr (due, taken)))

  fed_lem :
      (turn : ApplyTurn D M) (n : RaftNode D) (m : M) (r : RaftNode D × M × Option Error)
      → IsSoundApplyTurn turn
      → Fed n m r
      → Returns (compact_if_due turn r) (IsPass turn n m)
  unfolding compact_if_due
  fed_lem turn n m (n1, m1, some err) sound fed = fed.0.0
  fed_lem turn n m (n1, m1, none) sound fed =
      let s = turn.before_check (n1, m1) in
      let w = sound.before_check n1 m1 fed.0.0 in
      elim (Bool-cases (should_snapshot snapshot_threshold_entries s.0)) [
        | inl due ↦ rw due (
            Returns-map _
              (compacted_lem turn.before_compact (turn.before_snapshot s) sound.before_compact
                (sound.before_snapshot s.0 s.1 w))
              (λ p h. due_lem turn n m n1 m1 p fed ((should_snapshot_iff s.0).0 due) h))
        | inr early ↦ rw early (
          w,
          (
            n1,
            m1,
            fed,
            inl ((λ due. let e = sym early ∙ (should_snapshot_iff s.0).1 due in cc), refl),
          ),
        )
      ]

  apply_pass-IsPass :
      (turn : ApplyTurn D M) (n : RaftNode D) (m : M)
      → IsWellFormed n
      → IsSoundApplyTurn turn
      → Returns (apply_pass turn n m) (IsPass turn n m)
  unfolding apply_pass
  apply_pass-IsPass turn n m w sound =
      Returns-bind (λ o. (r : RaftNode D × M × Option Error) × (o ≡ some r) × Fed n m r)
        (IsPass turn n m) (apply_committed n m) _ (apply_committed-Fed n m w)
        (λ o (r, e, fed). rw e (fed_lem turn n m r sound fed))

  abbrev pub KeepsShape : ApplyLoop D M → Type 0
  KeepsShape (running n m) = IsWellFormed n
  KeepsShape (ended n m err) = IsWellFormed n

  -- What follows a pass.
  select_lem :
      (turn : ApplyTurn D M) (n : RaftNode D) (m : M) (p : Pass D M)
      (later : RaftNode D → M → Run (ApplyLoop D M))
      → IsSoundApplyTurn turn
      → IsPass turn n m p
      → ((k : RaftNode D) (l : M) → IsWellFormed k → Returns (later k l) KeepsShape)
      → Returns {A = ApplyLoop D M}
          (elim p [
            | broke n1 m1 err ↦ ret (ended n1 m1 err)
            | passed n1 m1 ↦
                let s = turn.before_select (n1, m1) in
                elim turn.context_done [
                  | some err ↦ ret (ended s.0 s.1 err)
                  | none ↦ later (receive_commit s.0) s.1
                ]
          ])
          KeepsShape
  select_lem turn n m (broke n1 m1 err) later sound w h = w
  select_lem turn n m (passed n1 m1) later sound (w, fed) h =
      let s = turn.before_select (n1, m1) in
      let ws = sound.before_select n1 m1 w in
      Returns-option KeepsShape turn.context_done (later (receive_commit s.0) s.1)
        (λ err. ret (ended s.0 s.1 err)) (h (receive_commit s.0) s.1 (ground (arith, ws)))
        (λ err. ws)

  apply_committed_loop-KeepsShape :
      (turns : List (ApplyTurn D M)) (n : RaftNode D) (m : M)
      → IsWellFormed n
      → All IsSoundApplyTurn turns
      → Returns (apply_committed_loop turns n m) KeepsShape
  unfolding apply_committed_loop
  apply_committed_loop-KeepsShape [] n m w s = w
  apply_committed_loop-KeepsShape (turn ∷ turns) n m w (sound, s) =
      Returns-bind (IsPass turn n m) KeepsShape (apply_pass turn n m) _
        (apply_pass-IsPass turn n m w sound)
        (λ p is.
          select_lem turn n m p (apply_committed_loop turns) sound is
            (λ k l wk. apply_committed_loop-KeepsShape turns k l wk s))

  -- The loop that applies what is committed, and each of its iterations, does not panic on a
  -- well-formed node, and leaves one, if what other goroutines do keeps it so: they act before each
  -- step behind ApplyCommitted, which is a call that runs alone. If an iteration does not break off
  -- with an error, the state machine was fed up to the commit index or the end of the log, and a
  -- snapshot was taken just when the node then had applied up to its last included index plus 64,
  -- in 64 bits, or further. Then the node, as other goroutines leave it after the snapshot, has the
  -- log, the last included index and the snapshot that Compact found; or its log is what stood
  -- behind its last applied index, which is now its last included index, and its snapshot is that
  -- of the state machine as it was before they acted: the two agree if nothing is applied in
  -- between.
  pub applying-IsPass :
      (turn : ApplyTurn D M) (turns : List (ApplyTurn D M)) (n : RaftNode D) (m : M)
      → IsWellFormed n
      → IsSoundApplyTurn turn
      → All IsSoundApplyTurn turns
      → Returns (apply_pass turn n m) (IsPass turn n m)
        × Returns (apply_committed_loop turns n m) KeepsShape
  applying-IsPass turn turns n m w sound s =
      (apply_pass-IsPass turn n m w sound, apply_committed_loop-KeepsShape turns n m w s)
