-- ===== src/Observability.antt =====
-- observability/metrics.go: the counts that a node keeps of what it does.
use Prim.Native.Char.{code}
use Prim.Native.String as Text
use rv_key_value.Base.{
  ℕ, ◌-◌, String, Bool, true, false, Option, none, some, List, [], ◌∷◌, ◌&&◌, leb, ◌==◌,
  if◌then◌else◌,
}
use rv_key_value.Raft.Types.{Error, AppendEntriesRequest, AppendEntriesResponse}
use rv_key_value.Http.Message.{Request}

-- The collectors of Prometheus, as a parameter: a fresh registry for a node, and what the source calls
-- of its counters, gauges and histograms. A status stands for its decimal numeral, and an index or a
-- term for the nearest float64.
pub record Prometheus (R : Type 0) : Type 0 where
  pub fresh : String → R
  pub count_election : R → R
  pub observe_latency : String → String → ℕ → R → R
  pub set_commit : ℕ → R → R
  pub set_term : ℕ → R → R
  pub count_request : String → ℕ → R → R

pub record Metrics (R : Type 0) : Type 0 where
  pub node_id : String
  pub registry : R

-- strings.ToUpper of an ASCII letter. No other letter becomes one of GET, PUT or DELETE.
abbrev pub upper_code : ℕ → ℕ
upper_code c = if leb b'a' c && leb c b'z' then c - 32 else c

-- `strings.ToUpper(s) == t`
unfoldable pub upper_is : String → String → Bool
upper_is Text.[] Text.[] = true
upper_is Text.[] (Text.◌∷◌ d t) = false
upper_is (Text.◌∷◌ c s) Text.[] = false
upper_is (Text.◌∷◌ c s) (Text.◌∷◌ d t) = upper_code (code c) == code d && upper_is s t

-- operationForMethod
unfoldable pub operation_for_method : String → String
unfolding upper_is
operation_for_method method =
    if upper_is method "GET"
    then "get"
    else if upper_is method "PUT"
    then "put"
    else if upper_is method "DELETE"
    then "delete"
    else "unknown"

-- statusRecorder: the status after some calls of WriteHeader.
unfoldable pub recorded_status : ℕ → List ℕ → ℕ
recorded_status status [] = status
recorded_status status (s ∷ statuses) = recorded_status s statuses

-- The label of a call of AppendEntries.
unfoldable pub append_result : AppendEntriesResponse → Option Error → String
append_result resp (some err) = "error"
append_result resp none = if resp.success then "success" else "rejected"

-- An http.Handler on a state: it leaves the state, and the statuses that it wrote.
abbrev pub Handler : Type 0 → Type 0
Handler S = Request → S → S × List ℕ

-- A raft.AppendClient on a state.
abbrev pub AppendClient : Type 0 → Type 0
AppendClient S = String → AppendEntriesRequest → S → S × AppendEntriesResponse × Option Error

module _ {R : Type 0} ⦃prometheus : Prometheus R⦄ where
  -- NewMetrics
  abbrev pub new_metrics : String → Metrics R
  new_metrics node_id = record { node_id = node_id; registry = prometheus.fresh node_id }

  -- RecordLeaderElection
  unfoldable pub record_leader_election : Metrics R → Metrics R
  record_leader_election m = record m { registry = prometheus.count_election m.registry }

  -- ObserveReplicationLatency
  unfoldable pub observe_replication_latency : String → String → ℕ → Metrics R → Metrics R
  observe_replication_latency peer_id result duration m = record m {
    registry = prometheus.observe_latency peer_id result duration m.registry;
  }

  -- SetCommitIndex
  unfoldable pub set_commit_index : ℕ → Metrics R → Metrics R
  set_commit_index index m = record m { registry = prometheus.set_commit index m.registry }

  -- SetCurrentTerm
  unfoldable pub set_current_term : ℕ → Metrics R → Metrics R
  set_current_term term m = record m { registry = prometheus.set_term term m.registry }

  -- InstrumentKV
  unfoldable pub instrument_kv : {S : Type 0} → Handler S → Handler (S × Metrics R)
  unfolding operation_for_method recorded_status
  instrument_kv next r (s, m) =
      let (s', statuses) = next r s in
      let operation = operation_for_method r.method in
      let status = recorded_status 200 statuses in
      ((s', record m { registry = prometheus.count_request operation status m.registry }), statuses)

  -- InstrumentAppendClient; `elapsed` tells how long a call takes.
  unfoldable pub instrument_append_client :
      {S : Type 0}
      → (String → AppendEntriesRequest → S → ℕ)
      → AppendClient S
      → AppendClient (S × Metrics R)
  unfolding append_result observe_replication_latency
  instrument_append_client elapsed next peer_id req (s, m) =
      let (s', resp, err) = next peer_id req s in
      let result = append_result resp err in
      ((s', observe_replication_latency peer_id result (elapsed peer_id req s) m), resp, err)
