-- ===== src/Cmd/Logging.antt =====
-- cmd/node/main.go: logNodeState, which follows a node.
pub mod Elections
use rv_key_value.Base.{
  ◌++◌, ℕ, String, Bool, true, false, Option, none, some, List, [], ◌∷◌, not, ◌||◌, ◌&&◌, ◌==◌,
  str_eq, if◌then◌else◌,
}
use rv_key_value.Raft.Types.{State, follower, candidate}
use rv_key_value.Raft.Node.{RaftNode, is_leader}
use rv_key_value.Raft.Node.Getters.{
  get_id, get_state, get_current_term, get_voted_for, get_commit_index,
}
use rv_key_value.Observability.{
  Prometheus, Metrics, record_leader_election, set_commit_index, set_current_term,
}

-- The node as it is when a tick reads its term, its state, its vote and its commit index.
pub record Tick (D : Type 0) : Type 0 where
  pub at_term : RaftNode D
  pub at_state : RaftNode D
  pub at_vote : RaftNode D
  pub at_commit : RaftNode D

-- What the last tick saw; no state is the empty text before the first tick.
pub record Seen : Type 0 where
  pub last_term : ℕ
  pub last_state : Option State
  pub last_vote : String

abbrev pub nothing_seen : Seen
nothing_seen = record { last_term = 0; last_state = none; last_vote = "" }

abbrev pub same_state : Option State → State → Bool
same_state (some State.leader) State.leader = true
same_state (some follower) follower = true
same_state (some candidate) candidate = true
same_state _ _ = false

-- A line of the log.
pub record Line : Type 0 where
  pub id : String
  pub state : State
  pub term : ℕ
  pub voted_for : String

module _ {D R : Type 0} ⦃prometheus : Prometheus R⦄ where
  -- The case of logNodeState for a tick.
  unfoldable pub log_tick : Tick D → Seen → Metrics R → Seen × Metrics R × List Line
  unfolding set_commit_index set_current_term record_leader_election
  log_tick t seen m =
      let term = get_current_term t.at_term in
      let state = get_state t.at_state in
      let voted_for = get_voted_for t.at_vote in
      let m1 = set_commit_index (get_commit_index t.at_commit) (set_current_term term m) in
      if not (term == seen.last_term)
        || not (same_state seen.last_state state)
        || not (str_eq voted_for seen.last_vote)
      then (
        record { last_term = term; last_state = some state; last_vote = voted_for },
        if is_leader state && not (same_state seen.last_state State.leader)
            then record_leader_election m1
            else m1,
        record { id = get_id t.at_vote; state = state; term = term; voted_for = voted_for } ∷ [],
      )
      else (seen, m1, [])

  -- logNodeState, until its context is done.
  unfoldable pub log_node_state : List (Tick D) → Seen → Metrics R → Metrics R × List Line
  unfolding log_tick
  log_node_state [] seen m = (m, [])
  log_node_state (t ∷ ticks) seen m =
      let (seen1, m1, line) = log_tick t seen m in
      let (m2, lines) = log_node_state ticks seen1 m1 in (m2, line ++ lines)
