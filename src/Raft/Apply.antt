-- ===== src/Raft/Apply.antt =====
-- raft/node.go: committed entries are applied in order, membership changes by the node itself, and
-- the applied prefix of the log is compacted.
pub mod Compaction
pub mod Members
pub mod Changing
pub mod Turns
pub mod Order
use rv_key_value.Base.{
  ℕ, zero, suc, ◌+◌, ◌-◌, String, Bool, true, false, Option, none, some, List, [], ◌∷◌, ◌++◌, not,
  ltb, leb, ◌==◌, ◌&&◌, ◌||◌, str_eq, if◌then◌else◌, u64, sub64, Run, ret, slice_from, ◌>>=◌,
}
use rv_key_value.Base.Map.{Map, insert, erase}
use rv_key_value.Raft.Types.{
  Bytes, follower, LogEntry, StableStore, StateMachine, Error, log_inconsistent, unsupported,
}
use rv_key_value.Raft.Membership.{
  MembershipJson, MembershipChangeType, add_peer, remove_peer as remove_type, other,
  MembershipChange, not_membership, invalid, decoded, decode_membership_change, validate,
}
use rv_key_value.Raft.Node.{RaftNode, persist, is_leader, is_set, contains_peer, remove_peer}
use rv_key_value.Raft.Log.{
  first_log_index, last_log_index, contains_log_index, entry_at, log_term_at,
}
use rv_key_value.Raft.Commit.{advance_commit, insert_or_panic}

-- `delete(m, k)`, which does nothing to a nil map.
abbrev pub erase? : String → Option (Map ℕ) → Option (Map ℕ)
erase? k none = none
erase? k (some m) = some (erase k m)

-- What an iteration of ApplyCommitted leads to.
pub data Turn (D M : Type 0) : Type 0 where
  stop : RaftNode D → M → Option Error → Turn D M
  again : RaftNode D → M → Turn D M

module _ {D : Type 0} where
  -- The two writes to the progress tables for a new peer.
  unfoldable pub track_peer : String → RaftNode D → Run (RaftNode D)
  track_peer peer_id n = do
    next ← insert_or_panic peer_id (u64 (last_log_index n + 1)) n.next_index
    match ← insert_or_panic peer_id 0 n.match_index
    ret (record n { next_index = some next; match_index = some match })

  -- The case of MembershipAddPeer.
  unfoldable pub add_member : String → RaftNode D → Run (RaftNode D)
  unfolding track_peer
  add_member peer_id n =
      if str_eq peer_id n.id
      then ret (record n { self_member = true })
      else if contains_peer n.peers peer_id
      then ret n
      else (let n1 = record n { peers = n.peers ++ peer_id ∷ [] } in
          if is_leader n.state && is_set n.next_index && is_set n.match_index
          then track_peer peer_id n1
          else ret n1)

  -- The case of MembershipRemovePeer.
  unfoldable pub remove_member : String → RaftNode D → RaftNode D
  remove_member peer_id n =
      if str_eq peer_id n.id
      then record n {
        self_member = false;
        state = follower;
        leader_id = "";
        voted_for = "";
        next_index = none;
        match_index = none;
      }
      else record n {
        peers = remove_peer n.peers peer_id;
        next_index = erase? peer_id n.next_index;
        match_index = erase? peer_id n.match_index;
      }

  -- applyMembershipChangeLocked
  unfoldable pub apply_membership_change_locked :
      MembershipChange → RaftNode D → Run (RaftNode D × Option Error)
  unfolding add_member remove_member
  apply_membership_change_locked change n =
      let n0 = record n { membership_configured = true } in
      elim change.change_type [
        | add_peer ↦ do n1 ← add_member change.peer_id n0; n2 ← advance_commit n1; ret (n2, none)
        | remove_type ↦ do n1 ← advance_commit (remove_member change.peer_id n0); ret (n1, none)
        | other t ↦ ret (n0, some (unsupported t))
      ]

  persist_unless : ⦃stable : StableStore D⦄ → Option Error → RaftNode D → RaftNode D × Option Error
  persist_unless ⦃stable⦄ (some err) n = (n, some err)
  persist_unless ⦃stable⦄ none n = persist n

  -- ApplyMembershipChange
  unfoldable pub apply_membership_change :
      ⦃stable : StableStore D⦄ → MembershipChange → RaftNode D → Run (RaftNode D × Option Error)
  unfolding persist_unless
  apply_membership_change ⦃stable⦄ change n = elim (validate change) [
    | some err ↦ ret (n, some err)
    | none ↦ do (n1, err) ← apply_membership_change_locked change n; ret (persist_unless err n1)
  ]

  -- markApplied
  unfoldable pub mark_applied : ℕ → RaftNode D → RaftNode D
  mark_applied index n = if ltb n.last_applied index then record n { last_applied = index } else n

  mark_and_persist :
      ⦃stable : StableStore D⦄ → Option Error → ℕ → RaftNode D → RaftNode D × Option Error
  unfolding mark_applied
  mark_and_persist ⦃stable⦄ (some err) index n = (n, some err)
  mark_and_persist ⦃stable⦄ none index n = persist (mark_applied index n)

  -- applyCommittedMembershipChange
  unfoldable pub apply_committed_membership_change :
      ⦃stable : StableStore D⦄ → MembershipChange → ℕ → RaftNode D → Run (RaftNode D × Option Error)
  unfolding mark_and_persist
  apply_committed_membership_change ⦃stable⦄ change index n = do
    (n1, err) ← apply_membership_change_locked change n
    ret (mark_and_persist err index n1)

  -- nextCommittedEntry
  unfoldable pub next_committed_entry : RaftNode D → Run (Option LogEntry)
  next_committed_entry n =
      let next = u64 (n.last_applied + 1) in
      if ltb n.commit_index next || not (contains_log_index n next)
      then ret none
      else (do e ← entry_at n next; ret (some e))

  -- ShouldSnapshot
  unfoldable pub should_snapshot : ℕ → RaftNode D → Bool
  should_snapshot threshold n =
      ltb 0 threshold && leb (u64 (n.last_included_index + threshold)) n.last_applied

  -- The log that Compact keeps: what stands behind `index`.
  unfoldable pub compacted_log : ℕ → RaftNode D → Run (List LogEntry)
  compacted_log index n =
      if ltb index (first_log_index n)
      then ret []
      else if leb (last_log_index n) index
      then ret []
      else slice_from (u64 (sub64 index (first_log_index n) + 1)) n.log

  -- Compact
  unfoldable pub compact :
      ⦃stable : StableStore D⦄ → Bytes → RaftNode D → Run (RaftNode D × Option Error)
  unfolding compacted_log
  compact ⦃stable⦄ snapshot n =
      if leb n.last_applied n.last_included_index then ret (n, none) else (do
        term ← log_term_at n n.last_applied
        if term == 0 then ret (n, some (log_inconsistent n.last_applied 0)) else do
          log ← compacted_log n.last_applied n
          ret (
              persist (record n {
                log = log;
                last_included_index = n.last_applied;
                last_included_term = term;
                snapshot = snapshot;
              })))

module _ {D M : Type 0} where
  abbrev pub mark_turn : LogEntry → RaftNode D → M × Option Error → Turn D M
  mark_turn entry n (m, some err) = stop n m (some err)
  mark_turn entry n (m, none) = again (mark_applied entry.index n) m

  abbrev pub change_turn : M → RaftNode D × Option Error → Turn D M
  change_turn m (n, some err) = stop n m (some err)
  change_turn m (n, none) = again n m

  -- What ApplyCommitted does with an entry.
  unfoldable pub apply_entry :
      ⦃stable : StableStore D⦄ ⦃json : MembershipJson⦄ ⦃machine : StateMachine M⦄
      → LogEntry
      → RaftNode D
      → M
      → Run (Turn D M)
  apply_entry ⦃stable⦄ ⦃json⦄ ⦃machine⦄ entry n m = elim (decode_membership_change entry.command) [
    | not_membership ↦ ret (mark_turn entry n (machine.apply entry m))
    | invalid err ↦ ret (stop n m (some err))
    | decoded change ↦ do
      changed ← apply_committed_membership_change change entry.index n
      ret (change_turn m changed)
  ]

  -- One iteration of ApplyCommitted.
  unfoldable pub apply_turn :
      ⦃stable : StableStore D⦄ ⦃json : MembershipJson⦄ ⦃machine : StateMachine M⦄
      → RaftNode D
      → M
      → Run (Turn D M)
  apply_turn ⦃stable⦄ ⦃json⦄ ⦃machine⦄ n m = do
    next ← next_committed_entry n
    elim next [ none ↦ ret (stop n m none) | some entry ↦ apply_entry entry n m ]

  -- The loop of ApplyCommitted; `none` means that the fuel ran out.
  unfoldable pub apply_loop :
      ⦃stable : StableStore D⦄ ⦃json : MembershipJson⦄ ⦃machine : StateMachine M⦄
      → ℕ
      → RaftNode D
      → M
      → Run (Option (RaftNode D × M × Option Error))
  apply_loop ⦃stable⦄ ⦃json⦄ ⦃machine⦄ zero n m = ret none
  apply_loop ⦃stable⦄ ⦃json⦄ ⦃machine⦄ (suc fuel) n m = do
    turn ← apply_turn n m
    elim turn [ stop n' m' err ↦ ret (some (n', m', err)) | again n' m' ↦ apply_loop fuel n' m' ]

  -- ApplyCommitted, as a call that runs alone: the source leaves the mutex between nextCommittedEntry,
  -- Apply and markApplied. An iteration that goes on has applied an entry of the log.
  unfoldable pub apply_committed :
      ⦃stable : StableStore D⦄ ⦃json : MembershipJson⦄ ⦃machine : StateMachine M⦄
      → RaftNode D
      → M
      → Run (Option (RaftNode D × M × Option Error))
  unfolding apply_loop
  apply_committed ⦃stable⦄ ⦃json⦄ ⦃machine⦄ n m =
      apply_loop (suc (last_log_index n - n.last_applied)) n m
