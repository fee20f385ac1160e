-- ===== src/Raft/Timers.antt =====
-- raft/timing.go, raft/election_timer.go and raft/heartbeat.go: when a node starts an election, and
-- when a leader sends to its peers. A `select` is a list of events, in the order in which they are
-- taken; durations are counted in nanoseconds.
pub mod Running
use rv_key_value.Base.{
  ℕ, ◌+◌, ◌-◌, Bool, true, false, Option, none, some, List, [], ◌∷◌, not, leb, if◌then◌else◌, Run,
  ret, ◌>>=◌,
}
use rv_key_value.Raft.Types.{StableStore, Error, message, RequestVoteResponse, PreVoteResponse}
use rv_key_value.Raft.Node.{RaftNode, is_leader}
use rv_key_value.Raft.Election.{Effect, Awaited, Interference, start_election}
use rv_key_value.Raft.Replicate.{Round, replicate_once}

abbrev pub min_election_timeout : ℕ
min_election_timeout = 150000000

abbrev pub max_election_timeout : ℕ
max_election_timeout = 300000000

abbrev pub default_heartbeat_interval : ℕ
default_heartbeat_interval = 50000000

-- RandomElectionTimeout; `int63n` is the method of the random source.
unfoldable pub random_election_timeout : (ℕ → ℕ) → ℕ
random_election_timeout int63n =
    let delta = max_election_timeout - min_election_timeout in
    min_election_timeout + int63n (delta + 1)

-- How a loop of a node stands: it waits for its next event, or has returned an error.
pub data Loop (D : Type 0) : Type 0 where
  running : RaftNode D → Loop D
  ended : RaftNode D → Error → Loop D

-- An event of RunElectionTimer: the context is done, the timer is reset, or it fires. What other
-- goroutines do before the look at the state, and the answers to an election, come with it.
pub data TimerEvent (D : Type 0) : Type 0 where
  stopped : Error → TimerEvent D
  reset : TimerEvent D
  fired :
      Effect D
      → Interference D
      → List (Awaited D PreVoteResponse)
      → List (Awaited D RequestVoteResponse)
      → TimerEvent D

-- An event of RunHeartbeatLoop.
pub data Beat (D : Type 0) : Type 0 where
  stopped : Error → Beat D
  tick : Effect D → Round D → Beat D

module _ {D : Type 0} where
  -- The error of a step ends the loop.
  abbrev pub go_on : RaftNode D → Option Error → Run (Loop D) → Run (Loop D)
  go_on n (some err) later = ret (ended n err)
  go_on n none later = later

  -- RunElectionTimer
  unfoldable pub run_election_timer :
      ⦃stable : StableStore D⦄ → Bool → List (TimerEvent D) → RaftNode D → Run (Loop D)
  run_election_timer ⦃stable⦄ has_client [] n = ret (running n)
  run_election_timer ⦃stable⦄ has_client (TimerEvent.stopped err ∷ events) n = ret (ended n err)
  run_election_timer ⦃stable⦄ has_client (reset ∷ events) n = run_election_timer has_client events n
  run_election_timer ⦃stable⦄ has_client (fired before env pre_answers answers ∷ events) n =
      let n1 = before n in
      let idle = run_election_timer has_client events n1 in
      if is_leader n1.state then idle else (do
        (n2, won, err) ← start_election has_client env pre_answers answers n1
        let later = run_election_timer has_client events n2
        go_on n2 err later)

  -- ReplicateOnce
  unfoldable pub heartbeat :
      ⦃stable : StableStore D⦄ → Round D → RaftNode D → Run (RaftNode D × Option Error)
  heartbeat ⦃stable⦄ round n = replicate_once 0 round n

  -- The loop of RunHeartbeatLoop.
  unfoldable pub heartbeat_loop :
      ⦃stable : StableStore D⦄ → List (Beat D) → RaftNode D → Run (Loop D)
  unfolding heartbeat
  heartbeat_loop ⦃stable⦄ [] n = ret (running n)
  heartbeat_loop ⦃stable⦄ (Beat.stopped err ∷ beats) n = ret (ended n err)
  heartbeat_loop ⦃stable⦄ (tick before round ∷ beats) n =
      let n1 = before n in
      let idle = heartbeat_loop beats n1 in
      if not (is_leader n1.state) then idle else (do
        (n2, err) ← heartbeat round n1
        let later = heartbeat_loop beats n2
        go_on n2 err later)

  -- RunHeartbeatLoop; `has_client` is false where the client is nil.
  unfoldable pub run_heartbeat_loop :
      ⦃stable : StableStore D⦄ → Bool → List (Beat D) → RaftNode D → Run (Loop D)
  unfolding heartbeat_loop
  run_heartbeat_loop ⦃stable⦄ has_client beats n =
      if not has_client
      then ret (ended n (message "append client is nil"))
      else heartbeat_loop beats n

-- The interval of RunHeartbeatLoop's ticker; 0 stands for an interval that is not positive.
unfoldable pub heartbeat_interval : ℕ → ℕ
heartbeat_interval interval = if leb interval 0 then default_heartbeat_interval else interval
