-- ===== src/Examples/Binary.antt =====
-- The binary around a node: its peers, its loops, its metrics, and the map that it replicates.
use rv_key_value.Base.{ℕ, suc, ◌+◌, ◌∷◌, [], List, ◌≡◌, inl, refl, Option, none, some, Returns}
use rv_key_value.Base.Map.{Map, lookup}
use rv_key_value.Raft.Types.{Bytes, PersistentState, Error, canceled}
use rv_key_value.Raft.Node.{RaftNode}
use rv_key_value.Raft.Apply.{apply_committed}
use rv_key_value.Store.Command.{KvJson, KvOperation}
use rv_key_value.Store.Machine.{KvStateMachine, new_kv_state_machine, kv_state_machine, get}
use rv_key_value.Store.Refinement.{Implements, apply_committed-Implements}
use rv_key_value.Cmd.Peers.{parse_peers}
use rv_key_value.Cmd.Peers.Parsed.{IsParsed, parse_peers-IsParsed}
use rv_key_value.Cmd.Applying.{SnapshotStateMachine, ApplyTurn, apply_pass, apply_committed_loop}
use rv_key_value.Cmd.Applying.Compacting.{IsSoundApplyTurn, IsPass, KeepsShape, applying-IsPass}
use rv_key_value.Cmd.Logging.{Tick, nothing_seen, log_node_state}
use rv_key_value.Cmd.Logging.Elections.{counted, led, log_node_state-counted}
use rv_key_value.Observability.{Prometheus, Metrics, new_metrics}
use rv_key_value.Examples.{new_node, disk_store, no_membership}
use rv_key_value.Examples.Logs.{leader_a, applied_a, applied_a-IsWellFormed}
use rv_key_value.Examples.Stores.{bucket}

parse_peers-IsParsed_example :
    IsParsed "n2=localhost:9002, n3=localhost:9003"
      (parse_peers "n2=localhost:9002, n3=localhost:9003")
parse_peers-IsParsed_example = parse_peers-IsParsed "n2=localhost:9002, n3=localhost:9003"

-- A codec that reads every document as a write of one key.
instance abbrev put_json : KvJson
put_json = record {
  marshal = λ c. (1 ∷ [], none);
  unmarshal = λ b. inl (record { operation = KvOperation.put; key = "x"; value = 7 ∷ [] });
  marshal_map = λ m. (1 ∷ [], none);
  unmarshal_map = λ b. inl [];
}

abbrev machine : KvStateMachine (Map Bytes)
machine = new_kv_state_machine

apply_committed-Implements_example : Returns (apply_committed applied_a machine) (λ o.
    (r : RaftNode PersistentState × KvStateMachine (Map Bytes) × Option Error) × (o ≡ some r)
    × Implements applied_a (λ k. none) r)
unfolding get lookup
apply_committed-Implements_example =
    apply_committed-Implements applied_a (λ k. none) machine applied_a-IsWellFormed (λ k. refl)

-- Every snapshot is one byte.
instance abbrev counting_snapshots : SnapshotStateMachine (KvStateMachine (Map Bytes))
counting_snapshots = record {
  take_snapshot = λ m. (1 ∷ [], none);
  restore_from = λ bytes m. (m, none);
}

abbrev calm_turn : ApplyTurn PersistentState (KvStateMachine (Map Bytes))
calm_turn = record {
  before_check = λ s. s;
  before_snapshot = λ s. s;
  before_compact = λ s. s;
  before_select = λ s. s;
  context_done = some canceled;
}

calm_turn-IsSoundApplyTurn : IsSoundApplyTurn calm_turn
calm_turn-IsSoundApplyTurn = record {
  before_check = λ n m w. w;
  before_snapshot = λ n m w. w;
  before_compact = λ n m w. w;
  before_select = λ n m w. w;
}

applying-IsPass_example :
    Returns (apply_pass calm_turn applied_a machine) (IsPass calm_turn applied_a machine)
    × Returns (apply_committed_loop (calm_turn ∷ []) applied_a machine) KeepsShape
applying-IsPass_example =
    applying-IsPass calm_turn (calm_turn ∷ []) applied_a machine applied_a-IsWellFormed
      calm_turn-IsSoundApplyTurn (calm_turn-IsSoundApplyTurn, tt)

-- A registry that counts elections alone.
instance abbrev counters : Prometheus ℕ
counters = record {
  fresh = λ id. 0;
  count_election = suc;
  observe_latency = λ peer result duration r. r + 1;
  set_commit = λ i r. r;
  set_term = λ t r. r;
  count_request = λ operation status r. r + 1;
}

abbrev tick_of : RaftNode PersistentState → Tick PersistentState
tick_of n = record { at_term = n; at_state = n; at_vote = n; at_commit = n }

abbrev ticks : List (Tick PersistentState)
ticks = tick_of (new_node "a") ∷ tick_of leader_a ∷ tick_of leader_a ∷ []

abbrev metrics : Metrics ℕ
metrics = new_metrics "a"

log_node_state-counted_example :
    (log_node_state ticks nothing_seen metrics).0 ≡ counted ticks (led none) metrics
log_node_state-counted_example = log_node_state-counted ticks nothing_seen metrics
