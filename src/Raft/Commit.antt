-- ===== src/Raft/Commit.antt =====
-- raft/node.go, raft/heartbeat.go: a leader's progress table and its commit index.
pub mod Advance
pub mod Leader
use rv_key_value.Base.{
  ℕ, zero, suc, ◌+◌, ◌-◌, String, Bool, true, false, Option, none, some, List, [], ◌∷◌, not, ltb,
  leb, ◌==◌, ◌&&◌, ◌||◌, if◌then◌else◌, u64, Run, ret, panic, ◌>>=◌,
}
use rv_key_value.Base.Map.{Map, lookup?, insert}
use rv_key_value.Raft.Types.{leader, StableStore, Error, unknown_peer}
use rv_key_value.Raft.Node.{
  RaftNode, persist, is_leader, is_set, majority, cluster_size, signal_commit_ready,
}
use rv_key_value.Raft.Log.{last_log_index, log_term_at}

-- A missing key reads as 0.
abbrev pub or_zero : Option ℕ → ℕ
or_zero none = 0
or_zero (some v) = v

-- How many of `peers` have a match index of at least `index`.
unfoldable pub count_matching : Option (Map ℕ) → ℕ → List String → ℕ
count_matching m index [] = 0
count_matching m index (p ∷ ps) =
    (if leb index (or_zero (lookup? p m)) then 1 else 0) + count_matching m index ps

-- The table of initLeaderProgressLocked, filled in the order of the peers.
unfoldable pub fill_progress : ℕ → List String → Map ℕ → Map ℕ
fill_progress v [] m = m
fill_progress v (p ∷ ps) m = fill_progress v ps (insert p v m)

-- A write to a map that may be nil.
abbrev pub insert_or_panic : String → ℕ → Option (Map ℕ) → Run (Map ℕ)
insert_or_panic k v none = panic
insert_or_panic k v (some m) = ret (insert k v m)

module _ {D : Type 0} where
  -- `replicated` of advanceCommitLocked: the leader itself and the peers that match.
  unfoldable pub replicated : RaftNode D → ℕ → ℕ
  unfolding count_matching
  replicated n index = 1 + count_matching n.match_index index n.peers

  -- The loop of advanceCommitLocked, from `index` down to the commit index.
  unfoldable pub advance_loop : RaftNode D → ℕ → Run (RaftNode D)
  advance_loop n zero = ret n
  advance_loop n (suc k) =
      let lower = advance_loop n k in
      if not (ltb n.commit_index (suc k)) then ret n else (do
        term ← log_term_at n (suc k)
        if not (term == n.current_term)
            then lower
            else if leb (majority (cluster_size n)) (replicated n (suc k))
            then ret (signal_commit_ready (record n { commit_index = suc k }))
            else lower)

  -- advanceCommitLocked
  unfoldable pub advance_commit : RaftNode D → Run (RaftNode D)
  advance_commit n =
      if not (is_leader n.state) || not n.self_member
      then ret n
      else advance_loop n (last_log_index n)

  -- initLeaderProgressLocked
  unfoldable pub init_leader_progress : RaftNode D → Run (RaftNode D)
  unfolding fill_progress
  init_leader_progress n = advance_commit (record n {
    next_index = some (fill_progress (u64 (last_log_index n + 1)) n.peers []);
    match_index = some (fill_progress 0 n.peers []);
  })

  -- BecomeLeader
  unfoldable pub become_leader :
      ⦃stable : StableStore D⦄ → RaftNode D → Run (RaftNode D × Option Error)
  become_leader ⦃stable⦄ n = do
    n' ← init_leader_progress (record n { state = leader; leader_id = n.id })
    ret (persist n')

  -- RecordReplicationSuccess
  unfoldable pub record_replication_success :
      String → ℕ → RaftNode D → Run (RaftNode D × Option Error)
  record_replication_success peer_id match n =
      if not (is_set (lookup? peer_id n.next_index))
      then ret (n, some (unknown_peer peer_id))
      else (do
        m ← insert_or_panic peer_id match n.match_index
        next ← insert_or_panic peer_id (u64 (match + 1)) n.next_index
        n' ← advance_commit (record n { match_index = some m; next_index = some next })
        ret (n', none))

  back_up : String → ℕ → RaftNode D → Run (RaftNode D × Option Error)
  back_up peer_id next n =
      if not (ltb 1 next)
      then ret (n, none)
      else if leb next (u64 (n.last_included_index + 1))
      then ret (n, none)
      else (do
        m ← insert_or_panic peer_id (next - 1) n.next_index
        ret (record n { next_index = some m }, none))

  -- RecordReplicationFailure; `next - 1` is exact behind the test `next > 1`.
  unfoldable pub record_replication_failure : String → RaftNode D → Run (RaftNode D × Option Error)
  unfolding back_up
  record_replication_failure peer_id n = elim (lookup? peer_id n.next_index) [
    | none ↦ ret (n, some (unknown_peer peer_id))
    | some next ↦ back_up peer_id next n
  ]

  -- The loop of ensureLeaderProgress: whether a peer is missing from either table.
  unfoldable pub misses_peer : RaftNode D → List String → Bool
  misses_peer n [] = false
  misses_peer n (p ∷ ps) =
      not (is_set (lookup? p n.next_index))
      || not (is_set (lookup? p n.match_index))
      || misses_peer n ps

  -- ensureLeaderProgress
  unfoldable pub ensure_leader_progress : RaftNode D → Run (RaftNode D)
  unfolding misses_peer
  ensure_leader_progress n =
      if not (is_leader n.state)
      then ret n
      else if not (is_set n.next_index) || not (is_set n.match_index)
      then init_leader_progress n
      else if misses_peer n n.peers
      then init_leader_progress n
      else ret n

  -- isCommitted
  unfoldable pub is_committed : RaftNode D → ℕ → Bool
  is_committed n index = leb index n.commit_index
