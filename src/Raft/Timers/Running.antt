-- ===== src/Raft/Timers/Running.antt =====
-- The bounds of the timeouts, and what the loops around a node keep.
use rv_key_value.Base.{
  min, ℕ, ◌-◌, ◌*◌, ◌≤◌, ◌<◌, ◌≡◌, Bool, true, Option, none, some, List, [], ◌∷◌, not, All, arith,
  refl, Run, ret, Returns, Returns-bind, Returns-if,
}
use rv_key_value.Raft.Types.{StableStore, Error}
use rv_key_value.Raft.Node.{RaftNode, is_leader}
use rv_key_value.Raft.Log.WellFormed.{IsWellFormed}
use rv_key_value.Raft.Election.Shape.{IsSoundElection, start_election-Returns}
use rv_key_value.Raft.Election.Winning.{IsSound}
use rv_key_value.Raft.Replicate.Rounds.{IsSoundRound, replicate_once-Returns}
use rv_key_value.Raft.Timers.{
  min_election_timeout, max_election_timeout, random_election_timeout, heartbeat_interval, Loop,
  running, ended, TimerEvent, reset, fired, Beat, tick, go_on, run_election_timer, heartbeat,
  heartbeat_loop, run_heartbeat_loop,
}

-- An election timeout lies between the bounds, if the random source draws below its argument, and
-- every duration between the bounds is that of such a source. Two heartbeats of
-- the default interval pass within every timeout.
pub timeouts_range :
    (int63n : ℕ → ℕ) (t : ℕ)
    → ((n : ℕ) → 0 < n → int63n n < n)
    → min_election_timeout ≤ t
    → t ≤ max_election_timeout
    → (min_election_timeout ≤ random_election_timeout int63n)
      × (random_election_timeout int63n ≤ max_election_timeout)
      × (2 * heartbeat_interval 0 < random_election_timeout int63n)
      × ((source : ℕ → ℕ) × ((n : ℕ) → 0 < n → source n < n) × (random_election_timeout source ≡ t))
unfolding random_election_timeout heartbeat_interval
timeouts_range int63n t below low high =
    let drawn = below 150000001 (omega arith) in
    (
      omega arith,
      omega arith,
      omega arith,
      (λ n. min (t - 150000000) (n - 1), λ n positive. omega arith, omega arith),
    )

module _ {D : Type 0} where
  -- The node of a loop, whether the loop has ended or not.
  abbrev pub node_of : Loop D → RaftNode D
  node_of (running n) = n
  node_of (ended n err) = n

  abbrev pub IsSoundEvent : TimerEvent D → Type 0
  IsSoundEvent (fired before env pre_answers answers) =
      IsSound before × IsSoundElection env pre_answers answers
  IsSoundEvent _ = Unit

  abbrev pub IsSoundBeat : Beat D → Type 0
  IsSoundBeat (tick before round) = IsSound before × IsSoundRound round
  IsSoundBeat _ = Unit

  go_on-Returns :
      (n : RaftNode D) (err : Option Error) (later : Run (Loop D))
      → IsWellFormed n
      → Returns later (λ l. IsWellFormed (node_of l))
      → Returns (go_on n err later) (λ l. IsWellFormed (node_of l))
  go_on-Returns n none later w h = h
  go_on-Returns n (some err) later w h = w

  -- What other goroutines do while the timer of a leader runs, until its context is done.
  abbrev pub undisturbed : List (TimerEvent D) → RaftNode D → Loop D
  undisturbed [] n = running n
  undisturbed (TimerEvent.stopped err ∷ events) n = ended n err
  undisturbed (reset ∷ events) n = undisturbed events n
  undisturbed (fired before env pre_answers answers ∷ events) n = undisturbed events (before n)

  -- The node leads whenever the timer fires.
  abbrev pub LeadsThroughout : List (TimerEvent D) → RaftNode D → Type 0
  LeadsThroughout [] n = Unit
  LeadsThroughout (TimerEvent.stopped err ∷ events) n = Unit
  LeadsThroughout (reset ∷ events) n = LeadsThroughout events n
  LeadsThroughout (fired before env pre_answers answers ∷ events) n =
      (is_leader (before n).state ≡ true) × LeadsThroughout events (before n)

module _ {D : Type 0} ⦃stable : StableStore D⦄ where
  timer_shape :
      (has_client : Bool) (events : List (TimerEvent D)) (n : RaftNode D)
      → IsWellFormed n
      → All IsSoundEvent events
      → Returns (run_election_timer has_client events n) (λ l. IsWellFormed (node_of l))
  unfolding run_election_timer
  timer_shape has_client [] n w s = w
  timer_shape has_client (TimerEvent.stopped err ∷ events) n w s = w
  timer_shape has_client (reset ∷ events) n w s = timer_shape has_client events n w s.1
  timer_shape has_client (fired before env pre_answers answers ∷ events) n w ((sb, se), s) =
      let P = λ (l : Loop D). IsWellFormed (node_of l) in
      let n1 = before n in
      Returns-if P (is_leader n1.state) _ _ (timer_shape has_client events n1 (sb n w) s) (
        Returns-bind (λ r. IsWellFormed r.0) P _ _
          (start_election-Returns has_client env pre_answers answers n1 (sb n w) se)
          (λ r wr. go_on-Returns r.0 r.2 _ wr (timer_shape has_client events r.0 wr s)))

  beats_shape :
      (beats : List (Beat D)) (n : RaftNode D)
      → IsWellFormed n
      → All IsSoundBeat beats
      → Returns (heartbeat_loop beats n) (λ l. IsWellFormed (node_of l))
  unfolding heartbeat_loop heartbeat
  beats_shape [] n w s = w
  beats_shape (Beat.stopped err ∷ beats) n w s = w
  beats_shape (tick before round ∷ beats) n w ((sb, sr), s) =
      let P = λ (l : Loop D). IsWellFormed (node_of l) in
      let n1 = before n in
      Returns-if P (not (is_leader n1.state)) _ _ (beats_shape beats n1 (sb n w) s) (
        Returns-bind (λ r. IsWellFormed r.0) P _ _ (replicate_once-Returns 0 round n1 (sb n w) sr)
          (λ r wr. go_on-Returns r.0 r.1 _ wr (beats_shape beats r.0 wr s)))

  leader_waits :
      (has_client : Bool) (events : List (TimerEvent D)) (n : RaftNode D)
      → LeadsThroughout events n
      → run_election_timer has_client events n ≡ ret (undisturbed events n)
  unfolding run_election_timer
  leader_waits has_client [] n h = refl
  leader_waits has_client (TimerEvent.stopped err ∷ events) n h = refl
  leader_waits has_client (reset ∷ events) n h = leader_waits has_client events n h
  leader_waits has_client (fired before env pre_answers answers ∷ events) n (lead, h) =
      rw lead (leader_waits has_client events (before n) h)

  -- The election timer and the heartbeat loop of a well-formed node do not panic, and leave it
  -- well-formed whenever they wait or end, if what other goroutines do between their critical
  -- sections keeps it so. The timer of a node that leads whenever the timer fires starts no election:
  -- nothing but other goroutines changes the node.
  pub loops-IsWellFormed :
      (has_client : Bool) (events quiet : List (TimerEvent D)) (beats : List (Beat D))
      (n : RaftNode D)
      → IsWellFormed n
      → All IsSoundEvent events
      → All IsSoundBeat beats
      → LeadsThroughout quiet n
      → Returns (run_election_timer has_client events n) (λ l. IsWellFormed (node_of l))
        × Returns (run_heartbeat_loop has_client beats n) (λ l. IsWellFormed (node_of l))
        × (run_election_timer has_client quiet n ≡ ret (undisturbed quiet n))
  unfolding run_heartbeat_loop
  loops-IsWellFormed has_client events quiet beats n w se sb leads = (
    timer_shape has_client events n w se,
    Returns-if (λ l. IsWellFormed (node_of l)) (not has_client) _ _ w (beats_shape beats n w sb),
    leader_waits has_client quiet n leads,
  )
