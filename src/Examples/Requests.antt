-- ===== src/Examples/Requests.antt =====
-- Requests to a node of a cluster of one, and a response that is forwarded.
use rv_key_value.Base.{
  ◌≤◌, ◌↔◌, ◌≡◌, inl, inr, refl, true, none, some, [], ◌∷◌, min, length, take, ret,
}
use rv_key_value.Base.Map.{Map, lookup}
use rv_key_value.Base.Texts.{contains_char}
use rv_key_value.Raft.Types.{Bytes, PersistentState, leader}
use rv_key_value.Raft.Node.{RaftNode, fresh_node}
use rv_key_value.Store.Command.{KvJson, KvOperation}
use rv_key_value.Store.Machine.{KvStateMachine, new_kv_state_machine}
use rv_key_value.Http.Message.{Request, text, http_error}
use rv_key_value.Http.Forward.{
  HttpAnswer, HttpClient, LeaderForwarder, ForwardResponse, max_forward_response_bytes, forward,
}
use rv_key_value.Http.Forward.Truncation.{forward-HttpAnswer}
use rv_key_value.Http.Proposing.{Api, ProposalRun, new_api, answered}
use rv_key_value.Http.Api.{ReadRun, handle_kv}
use rv_key_value.Http.Api.Refusals.{handle_kv-Refuses, no_key}
use rv_key_value.Http.Api.Writes.{Writes}
use rv_key_value.Http.Api.Reads.{Reads}
use rv_key_value.Examples.{disk_store, no_membership}
use rv_key_value.Examples.Operations.{calm_attempt}
use rv_key_value.Examples.Stores.{bucket}

-- A codec that reads every document as a command that does nothing.
instance abbrev noop_json : KvJson
noop_json = record {
  marshal = λ c. (1 ∷ [], none);
  unmarshal = λ b. inl (record { operation = KvOperation.noop; key = ""; value = [] });
  marshal_map = λ m. ([], none);
  unmarshal_map = λ b. inl [];
}

abbrev leader_answer : HttpAnswer
leader_answer = record {
  status = 200;
  header = ("Content-Type", "text/plain") ∷ [];
  body = record { content = 7 ∷ 8 ∷ []; broken = none };
}

-- A network in which every request reaches the leader.
instance abbrev reaching : HttpClient
reaching = record {
  resolve = λ addr path. inl path;
  exchange = λ method target body. inl leader_answer;
}

abbrev forwarder : LeaderForwarder
forwarder = record { http_addrs = ("b", "http://b:8080") ∷ [] }

forward-HttpAnswer_example :
    (response : ForwardResponse) × (forward forwarder "b" "GET" "/kv/x" [] ≡ inl response)
    × (response.status_code ≡ 200)
    × (response.header ≡ ("Content-Type", "text/plain") ∷ [])
    × (response.body ≡ take max_forward_response_bytes (7 ∷ 8 ∷ []))
    × (length response.body ≡ min max_forward_response_bytes 2)
    × ((response.body ≡ 7 ∷ 8 ∷ []) ↔ (2 ≤ max_forward_response_bytes))
unfolding lookup
forward-HttpAnswer_example =
    forward-HttpAnswer forwarder "b" "GET" "/kv/x" "http://b:8080" "/kv/x" [] leader_answer refl
      refl refl refl

-- A leader without peers.
abbrev solo : RaftNode PersistentState
solo = record (fresh_node "a" [] none) {
  state = leader;
  current_term = 1;
  leader_id = "a";
  membership_configured = true;
  next_index = some [];
  match_index = some [];
}

abbrev machine : KvStateMachine (Map Bytes)
machine = new_kv_state_machine

abbrev plain_run : ProposalRun PersistentState (Map Bytes)
plain_run = record {
  context = none;
  before_append = λ n. n;
  attempts = calm_attempt ∷ [];
  before_apply = λ s. s;
  before_leader = λ n. n;
}

abbrev plain_read : ReadRun PersistentState (Map Bytes)
plain_read = record {
  before_state = λ n. n;
  before_leader = λ n. n;
  barrier = plain_run;
  before_get = λ s. s;
}

abbrev api : Api
api = new_api true (some forwarder)

abbrev put_request : Request
put_request = record {
  method = "PUT";
  path = "/kv/x";
  body = record { content = 7 ∷ []; broken = none };
}

abbrev bad_request : Request
bad_request = record {
  method = "GET";
  path = "/kv/x/y";
  body = record { content = []; broken = none };
}

handle_kv-Refuses_example :
    handle_kv plain_read api bad_request solo machine
    ≡ ret (answered solo machine (http_error (text "invalid key") 400))
unfolding contains_char
handle_kv-Refuses_example =
    handle_kv-Refuses plain_read api bad_request solo machine "x/y"
      (http_error (text "invalid key") 400) refl (no_key (inr refl))
