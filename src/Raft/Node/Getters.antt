-- ===== src/Raft/Node/Getters.antt =====
-- raft/node.go: the methods that read a field of a node. Members is in Raft/Node, and a read of a
-- progress map that has no such peer is 0.
use rv_key_value.Base.{ℕ, String, Bool, Option, none, some, List}
use rv_key_value.Base.Map.{lookup?}
use rv_key_value.Raft.Types.{Bytes, State, LogEntry}
use rv_key_value.Raft.Node.{RaftNode, clone_peers}
use rv_key_value.Raft.Log.{last_log_index, last_log_term}

abbrev or_none : Option ℕ → ℕ
or_none none = 0
or_none (some i) = i

module _ {D : Type 0} (n : RaftNode D) where
  -- ID
  abbrev pub get_id : String
  get_id = n.id

  -- State
  abbrev pub get_state : State
  get_state = n.state

  -- CurrentTerm
  abbrev pub get_current_term : ℕ
  get_current_term = n.current_term

  -- VotedFor
  abbrev pub get_voted_for : String
  get_voted_for = n.voted_for

  -- LeaderID
  abbrev pub get_leader_id : String
  get_leader_id = n.leader_id

  -- Log
  abbrev pub get_log : List LogEntry
  get_log = n.log

  -- Peers
  unfoldable pub get_peers : Option (List String)
  unfolding clone_peers
  get_peers = clone_peers n.peers

  -- Snapshot
  abbrev pub get_snapshot : Bytes
  get_snapshot = n.snapshot

  -- LastIncludedIndex
  abbrev pub get_last_included_index : ℕ
  get_last_included_index = n.last_included_index

  -- LastIncludedTerm
  abbrev pub get_last_included_term : ℕ
  get_last_included_term = n.last_included_term

  -- LastLogIndex
  unfoldable pub get_last_log_index : ℕ
  unfolding last_log_index
  get_last_log_index = last_log_index n

  -- LastLogTerm
  unfoldable pub get_last_log_term : ℕ
  unfolding last_log_term
  get_last_log_term = last_log_term n

  -- CommitIndex
  abbrev pub get_commit_index : ℕ
  get_commit_index = n.commit_index

  -- CommitReady: whether a receive from the channel would not wait.
  abbrev pub get_commit_ready : Bool
  get_commit_ready = n.commit_ready

  -- LastApplied
  abbrev pub get_last_applied : ℕ
  get_last_applied = n.last_applied

  -- NextIndex
  unfoldable pub get_next_index : String → ℕ
  get_next_index peer_id = or_none (lookup? peer_id n.next_index)

  -- MatchIndex
  unfoldable pub get_match_index : String → ℕ
  get_match_index peer_id = or_none (lookup? peer_id n.match_index)
