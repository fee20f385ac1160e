-- ===== src/Examples/Loops.antt =====
-- The loops around a node: its election timer, its heartbeats, and the applying of what is committed.
use rv_key_value.Base.{ℕ, ◌-◌, ◌*◌, ◌≤◌, ◌<◌, ◌≡◌, true, List, [], ◌∷◌, refl, arith, ret, Returns}
use rv_key_value.Raft.Types.{PersistentState, canceled}
use rv_key_value.Raft.Log.WellFormed.{IsWellFormed}
use rv_key_value.Raft.Election.{failed}
use rv_key_value.Raft.Timers.{
  TimerEvent, reset, fired, Beat, tick, min_election_timeout, max_election_timeout,
  random_election_timeout, heartbeat_interval, run_election_timer, run_heartbeat_loop,
}
use rv_key_value.Raft.Timers.Running.{node_of, undisturbed, timeouts_range, loops-IsWellFormed}
use rv_key_value.Examples.{disk_store}
use rv_key_value.Examples.Operations.{calm, one_vote, calm_attempt, calm_attempt-IsSoundAttempt}
use rv_key_value.Examples.Logs.{leader_a, leader_a-IsWellFormed}

timeouts_range_example :
    (min_election_timeout ≤ random_election_timeout (λ n. n - 1))
    × (random_election_timeout (λ n. n - 1) ≤ max_election_timeout)
    × (2 * heartbeat_interval 0 < random_election_timeout (λ n. n - 1))
    × ((source : ℕ → ℕ) × ((n : ℕ) → 0 < n → source n < n)
        × (random_election_timeout source ≡ 200000000))
timeouts_range_example =
    timeouts_range (λ n. n - 1) 200000000 (λ n h. omega arith) (omega arith) (omega arith)

abbrev timer_events : List (TimerEvent PersistentState)
timer_events = reset ∷ fired (λ n. n) calm (failed ∷ failed ∷ []) one_vote ∷ []

abbrev quiet_events : List (TimerEvent PersistentState)
quiet_events = fired (λ n. n) calm [] [] ∷ reset ∷ TimerEvent.stopped canceled ∷ []

abbrev beats : List (Beat PersistentState)
beats = tick (λ n. n) calm_attempt.round ∷ Beat.stopped canceled ∷ []

loops-IsWellFormed_example :
    Returns (run_election_timer true timer_events leader_a) (λ l. IsWellFormed (node_of l))
    × Returns (run_heartbeat_loop true beats leader_a) (λ l. IsWellFormed (node_of l))
    × (run_election_timer true quiet_events leader_a ≡ ret (undisturbed quiet_events leader_a))
loops-IsWellFormed_example =
    loops-IsWellFormed true timer_events quiet_events beats leader_a leader_a-IsWellFormed
      (
        tt,
        (
          (
            λ n w. w,
            record {
              before_pre_vote = λ n w. w;
              before_snapshot = λ n w. w;
              before_candidate = λ n w. w;
              before_requests = λ n w. w;
              before_promotion = λ n w. w;
              pre = (tt, (tt, tt));
              votes = (tt, ((λ n w. w, λ n w. w, λ n w. w), tt));
            },
          ),
          tt,
        ),
      )
      ((λ n w. w, calm_attempt-IsSoundAttempt.round), (tt, tt)) (refl, tt)
