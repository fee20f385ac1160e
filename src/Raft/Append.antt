-- ===== src/Raft/Append.antt =====
-- raft/node.go: a follower takes entries from a leader; a leader appends and sends its own.
pub mod Follower
pub mod Outcomes
pub mod Matching
pub mod Leader
use rv_key_value.Base.{
  ℕ, suc, ◌+◌, String, Bool, true, false, Option, none, some, List, [], ◌∷◌, ◌++◌, not, ltb, leb,
  ◌||◌, min, if◌then◌else◌, u64, sub64, Run, ret, ◌>>=◌,
}
use rv_key_value.Base.Map.{lookup?}
use rv_key_value.Raft.Types.{
  Bytes, State, follower, LogEntry, StableStore, Error, unknown_peer, membership_change_pending,
  AppendEntriesRequest, AppendEntriesResponse,
}
use rv_key_value.Raft.Membership.{
  MembershipJson, not_membership, invalid, decoded, decode_membership_change,
}
use rv_key_value.Raft.Node.{
  RaftNode, persist, is_member, is_leader, is_follower, is_set, signal_commit_ready,
}
use rv_key_value.Raft.Log.{
  first_log_index, last_log_index, log_term_at, clone_entries_from, append_entries_to_log,
}
use rv_key_value.Raft.Commit.{advance_commit}

-- The loop of hasPendingMembershipChangeLocked.
unfoldable pub has_pending_in : ⦃json : MembershipJson⦄ → ℕ → List LogEntry → Bool
has_pending_in ⦃json⦄ last_applied [] = false
has_pending_in ⦃json⦄ last_applied (e ∷ es) =
    let rest = has_pending_in last_applied es in
    if leb e.index last_applied
    then rest
    else elim (decode_membership_change e.command) [ not_membership ↦ rest | _ ↦ true ]

abbrev pub empty_entry : LogEntry
empty_entry = record { term = 0; index = 0; command = [] }

abbrev pub empty_append : AppendEntriesRequest
empty_append = record {
  term = 0;
  leader_id = "";
  prev_log_index = 0;
  prev_log_term = 0;
  entries = [];
  leader_commit = 0;
}

module _ {D : Type 0} where
  -- The writes of HandleAppendEntries before the log is touched: the node follows the sender.
  unfoldable pub follow_leader : AppendEntriesRequest → RaftNode D → RaftNode D
  follow_leader req n =
      let n1 =
        (if ltb n.current_term req.term
          then record n {
            current_term = req.term;
            voted_for = "";
            leader_id = "";
            next_index = none;
            match_index = none;
          }
          else n) in
      let n2 =
        (if not (is_follower n1.state)
          then record n1 { next_index = none; match_index = none }
          else n1) in
      record n2 { state = follower; leader_id = req.leader_id }

  -- The commit index of a follower.
  unfoldable pub follow_commit : ℕ → RaftNode D → RaftNode D
  follow_commit leader_commit n =
      let next_commit = min leader_commit (last_log_index n) in
      if ltb n.commit_index leader_commit
      then (if ltb n.commit_index next_commit
          then signal_commit_ready (record n { commit_index = next_commit })
          else n)
      else n

  -- `if changed { return resp, n.persistLocked() }; return resp, nil`
  unfoldable pub persist_if :
      ⦃stable : StableStore D⦄ → Bool → RaftNode D → RaftNode D × Option Error
  persist_if ⦃stable⦄ changed n = if changed then persist n else (n, none)

  finish_append :
      ⦃stable : StableStore D⦄
      → AppendEntriesRequest
      → Bool
      → RaftNode D × Bool × Option Error
      → RaftNode D × AppendEntriesResponse × Option Error
  unfolding persist_if follow_commit
  finish_append ⦃stable⦄ req changed (n, log_changed, some _) =
      let (n', err) = persist_if changed n in
      (n', record { term = n.current_term; success = false }, err)
  finish_append ⦃stable⦄ req changed (n, log_changed, none) =
      let (n', err) = persist_if (changed || log_changed) (follow_commit req.leader_commit n) in
      (n', record { term = n.current_term; success = true }, err)

  -- HandleAppendEntries
  unfoldable pub handle_append_entries :
      ⦃stable : StableStore D⦄
      → AppendEntriesRequest
      → RaftNode D
      → Run (RaftNode D × AppendEntriesResponse × Option Error)
  unfolding finish_append follow_leader
  handle_append_entries ⦃stable⦄ req n =
      let refused : AppendEntriesResponse = record { term = n.current_term; success = false } in
      if ltb req.term n.current_term
      then ret (n, refused, none)
      else if not (is_member n req.leader_id)
      then ret (n, refused, none)
      else (do
        appended ←
            append_entries_to_log req.prev_log_index req.prev_log_term req.entries
              (follow_leader req n)
        ret (finish_append req (ltb n.current_term req.term) appended))

  -- hasPendingMembershipChangeLocked
  unfoldable pub has_pending_membership_change : ⦃json : MembershipJson⦄ → RaftNode D → Bool
  unfolding has_pending_in
  has_pending_membership_change ⦃json⦄ n = has_pending_in n.last_applied n.log

  -- The check of AppendLocal before it writes.
  unfoldable pub refuse_local : ⦃json : MembershipJson⦄ → Bytes → RaftNode D → Option Error
  refuse_local ⦃json⦄ command n = elim (decode_membership_change command) [
    | not_membership ↦ none
    | invalid err ↦ some err
    | decoded change ↦
        if has_pending_membership_change n then some membership_change_pending else none
  ]

  -- The entry that AppendLocal makes.
  abbrev pub local_entry : Bytes → RaftNode D → LogEntry
  local_entry command n = record {
    term = n.current_term;
    index = u64 (last_log_index n + 1);
    command = command;
  }

  -- AppendLocal
  unfoldable pub append_local :
      ⦃stable : StableStore D⦄ ⦃json : MembershipJson⦄
      → Bytes
      → RaftNode D
      → Run (RaftNode D × LogEntry × Option Error)
  append_local ⦃stable⦄ ⦃json⦄ command n =
      let entry = local_entry command n in
      let n1 = record n { log = n.log ++ entry ∷ [] } in
      elim (refuse_local command n) [
        | some err ↦ ret (n, empty_entry, some err)
        | none ↦ do
          n2 ← if is_leader n1.state then advance_commit n1 else ret n1
          let (n3, err) = persist n2
          ret (n3, entry, err)
      ]

  unfoldable build_from : ℕ → RaftNode D → Run AppendEntriesRequest
  build_from next n = do
    prev_term ← log_term_at n (sub64 next 1)
    entries ← clone_entries_from n next
    ret (record {
      term = n.current_term;
      leader_id = n.id;
      prev_log_index = sub64 next 1;
      prev_log_term = prev_term;
      entries = entries;
      leader_commit = n.commit_index;
    })

  -- BuildAppendEntries
  unfoldable pub build_append_entries :
      String → RaftNode D → Run (AppendEntriesRequest × Option Error)
  unfolding build_from
  build_append_entries peer_id n = elim (lookup? peer_id n.next_index) [
    | none ↦ ret (empty_append, some (unknown_peer peer_id))
    | some next ↦ do
      req ← build_from (if leb next n.last_included_index then first_log_index n else next) n
      ret (req, none)
  ]
