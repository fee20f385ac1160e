-- ===== src/Cmd/Applying.antt =====
-- cmd/node/main.go: the loop that applies what is committed, and compacts the log.
pub mod Compacting
use rv_key_value.Base.{
  ℕ, Bool, true, false, Option, none, some, List, [], ◌∷◌, if◌then◌else◌, Run, ret, panic, ◌>>=◌,
}
use rv_key_value.Raft.Types.{Bytes, Error, StableStore, StateMachine}
use rv_key_value.Raft.Membership.{MembershipJson}
use rv_key_value.Raft.Node.{RaftNode}
use rv_key_value.Raft.Apply.{apply_committed, should_snapshot, compact}

-- raft.SnapshotStateMachine, beside what StateMachine has of it.
pub record SnapshotStateMachine (M : Type 0) : Type 0 where
  pub take_snapshot : M → Bytes × Option Error
  pub restore_from : Bytes → M → M × Option Error

abbrev pub snapshot_threshold_entries : ℕ
snapshot_threshold_entries = 64

-- What other goroutines do to the node and the state machine between the steps of an iteration, and
-- how its select ends: with the context's error, or with the channel of commits.
pub record ApplyTurn (D M : Type 0) : Type 0 where
  pub before_check : RaftNode D × M → RaftNode D × M
  pub before_snapshot : RaftNode D × M → RaftNode D × M
  pub before_compact : RaftNode D × M → RaftNode D × M
  pub before_select : RaftNode D × M → RaftNode D × M
  pub context_done : Option Error

-- What an iteration has come to before its select, and how the loop stands.
pub data Pass (D M : Type 0) : Type 0 where
  broke : RaftNode D → M → Error → Pass D M
  passed : RaftNode D → M → Pass D M

pub data ApplyLoop (D M : Type 0) : Type 0 where
  running : RaftNode D → M → ApplyLoop D M
  ended : RaftNode D → M → Error → ApplyLoop D M

-- A receive from the channel of commits empties its slot.
abbrev pub receive_commit : {D : Type 0} → RaftNode D → RaftNode D
receive_commit n = record n { commit_ready = false }

module _ {D M : Type 0} where
  abbrev pub pass_of : M → RaftNode D × Option Error → Pass D M
  pass_of m (n, some err) = broke n m err
  pass_of m (n, none) = passed n m

  -- `Snapshot` and `Compact`, which are separate critical sections.
  unfoldable pub take_and_compact :
      ⦃stable : StableStore D⦄ ⦃snapshots : SnapshotStateMachine M⦄
      → (RaftNode D × M → RaftNode D × M)
      → RaftNode D × M
      → Run (Pass D M)
  take_and_compact ⦃stable⦄ ⦃snapshots⦄ before_compact (n, m) =
      let (bytes, err) = snapshots.take_snapshot m in
      elim err [
        | some e ↦ ret (broke n m e)
        | none ↦ do
          compacted ← compact bytes (before_compact (n, m)).0
          ret (pass_of (before_compact (n, m)).1 compacted)
      ]

  unfoldable pub compact_if_due :
      ⦃stable : StableStore D⦄ ⦃snapshots : SnapshotStateMachine M⦄
      → ApplyTurn D M
      → RaftNode D × M × Option Error
      → Run (Pass D M)
  unfolding take_and_compact
  compact_if_due ⦃stable⦄ ⦃snapshots⦄ turn (n, m, some err) = ret (broke n m err)
  compact_if_due ⦃stable⦄ ⦃snapshots⦄ turn (n, m, none) =
      let s = turn.before_check (n, m) in
      if should_snapshot snapshot_threshold_entries s.0
      then take_and_compact turn.before_compact (turn.before_snapshot s)
      else ret (passed s.0 s.1)

  -- An iteration of applyCommittedLoop before its select. ApplyCommitted does not run out of fuel.
  unfoldable pub apply_pass :
      ⦃stable : StableStore D⦄ ⦃json : MembershipJson⦄ ⦃machine : StateMachine M⦄
      ⦃snapshots : SnapshotStateMachine M⦄
      → ApplyTurn D M
      → RaftNode D
      → M
      → Run (Pass D M)
  unfolding compact_if_due
  apply_pass ⦃stable⦄ ⦃json⦄ ⦃machine⦄ ⦃snapshots⦄ turn n m = do
    applied ← apply_committed n m
    elim applied [ none ↦ panic | some r ↦ compact_if_due turn r ]

  -- applyCommittedLoop
  unfoldable pub apply_committed_loop :
      ⦃stable : StableStore D⦄ ⦃json : MembershipJson⦄ ⦃machine : StateMachine M⦄
      ⦃snapshots : SnapshotStateMachine M⦄
      → List (ApplyTurn D M)
      → RaftNode D
      → M
      → Run (ApplyLoop D M)
  unfolding apply_pass
  apply_committed_loop ⦃stable⦄ ⦃json⦄ ⦃machine⦄ ⦃snapshots⦄ [] n m = ret (running n m)
  apply_committed_loop ⦃stable⦄ ⦃json⦄ ⦃machine⦄ ⦃snapshots⦄ (turn ∷ turns) n m = do
    pass ← apply_pass turn n m
    elim pass [
      | broke n1 m1 err ↦ ret (ended n1 m1 err)
      | passed n1 m1 ↦
          let s = turn.before_select (n1, m1) in
          let later = apply_committed_loop turns (receive_commit s.0) s.1 in
          elim turn.context_done [ some err ↦ ret (ended s.0 s.1 err) | none ↦ later ]
    ]
