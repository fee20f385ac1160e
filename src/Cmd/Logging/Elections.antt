-- ===== src/Cmd/Logging/Elections.antt =====
-- Which elections logNodeState counts.
use rv_key_value.Base.{
  Bool, Option, List, [], ◌∷◌, ◌≡◌, refl, ap, ◌∙◌, arith, not, ◌&&◌, if◌then◌else◌,
}
use rv_key_value.Raft.Types.{State, leader}
use rv_key_value.Raft.Node.{is_leader}
use rv_key_value.Observability.{
  Prometheus, Metrics, record_leader_election, set_commit_index, set_current_term,
}
use rv_key_value.Cmd.Logging.{Tick, Seen, same_state, log_tick, log_node_state}

-- Whether the last tick that was seen saw a leader.
abbrev pub led : Option State → Bool
led o = same_state o leader

module _ {D R : Type 0} ⦃prometheus : Prometheus R⦄ where
  -- The term and the commit index of a tick.
  abbrev pub with_gauges : Tick D → Metrics R → Metrics R
  with_gauges t m =
      set_commit_index t.at_commit.commit_index (set_current_term t.at_term.current_term m)

  -- The metrics after some ticks, if every tick sets the gauges, and counts an election just if the
  -- node leads and did not lead at the tick before.
  unfoldable pub counted : List (Tick D) → Bool → Metrics R → Metrics R
  counted [] before m = m
  counted (t ∷ ticks) before m =
      let leads = is_leader t.at_state.state in
      let m1 = with_gauges t m in
      counted ticks leads (if leads && not before then record_leader_election m1 else m1)

  tick_metrics :
      (t : Tick D) (seen : Seen) (m : Metrics R)
      → (log_tick t seen m).1 ≡ (
          if is_leader t.at_state.state && not (led seen.last_state)
          then record_leader_election (with_gauges t m)
          else with_gauges t m)
  unfolding log_tick
  tick_metrics t seen m = ground arith

  tick_leads :
      (t : Tick D) (seen : Seen) (m : Metrics R)
      → led (log_tick t seen m).0.last_state ≡ is_leader t.at_state.state
  unfolding log_tick
  tick_leads t seen m = ground arith

  -- However the node changes its term, its state and its vote between the ticks, logNodeState leaves
  -- the metrics as if every tick set the gauges, and counted an election just if the node leads and did
  -- not lead at the tick before; before the first tick it did not lead.
  pub log_node_state-counted :
      (ticks : List (Tick D)) (seen : Seen) (m : Metrics R)
      → (log_node_state ticks seen m).0 ≡ counted ticks (led seen.last_state) m
  unfolding log_node_state counted
  log_node_state-counted [] seen m = refl
  log_node_state-counted (t ∷ ticks) seen m =
      log_node_state-counted ticks (log_tick t seen m).0 (log_tick t seen m).1
      ∙ ap (λ b. counted ticks b (log_tick t seen m).1) (tick_leads t seen m)
      ∙ ap (counted ticks (is_leader t.at_state.state)) (tick_metrics t seen m)
