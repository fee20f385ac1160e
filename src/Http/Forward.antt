-- ===== src/Http/Forward.antt =====
-- client/http.go: LeaderForwarder, which sends a request on to the leader.
pub mod Truncation
use rv_key_value.Base.{
  ℕ, ◌+◌, String, Option, none, some, List, [], ltb, length, take, if◌then◌else◌, ◌⊎◌, inl, inr,
}
use rv_key_value.Base.Map.{Map, lookup}
use rv_key_value.Raft.Types.{Bytes, Error, message}
use rv_key_value.Http.Message.{Body, read_first}

-- What the leader sends back.
pub record HttpAnswer : Type 0 where
  pub status : ℕ
  pub header : List (String × String)
  pub body : Body

-- The http.Client with the functions of net/url, as a parameter: url.Parse followed by
-- ResolveReference with a path, and a request that is made and sent.
pub record HttpClient : Type 0 where
  pub resolve : String → String → String ⊎ Error
  pub exchange : String → String → Bytes → HttpAnswer ⊎ Error

pub record LeaderForwarder : Type 0 where
  pub http_addrs : Map String

-- NewLeaderForwarder; the five seconds of its client are the environment's.
abbrev pub new_leader_forwarder : String → Map String → LeaderForwarder
new_leader_forwarder self_id http_addrs = record { http_addrs = http_addrs }

pub record ForwardResponse : Type 0 where
  pub status_code : ℕ
  pub header : List (String × String)
  pub body : Bytes

abbrev pub max_forward_response_bytes : ℕ
max_forward_response_bytes = 65536

-- `if len(respBody) > max { respBody = respBody[:max] }`
unfoldable pub cut_body : ℕ → Bytes → Bytes
cut_body limit body = if ltb limit (length body) then take limit body else body

-- The part of Forward behind the exchange.
unfoldable pub read_answer : HttpAnswer ⊎ Error → ForwardResponse ⊎ Error
unfolding cut_body
read_answer (inr err) = inr err
read_answer (inl answer) = elim (read_first (max_forward_response_bytes + 1) answer.body) [
  | inr err ↦ inr err
  | inl body ↦ inl (record {
    status_code = answer.status;
    header = answer.header;
    body = cut_body max_forward_response_bytes body;
  })
]

module _ ⦃http : HttpClient⦄ where
  -- (LeaderForwarder).Forward
  unfoldable pub forward :
      LeaderForwarder → String → String → String → Bytes → ForwardResponse ⊎ Error
  unfolding read_answer
  forward f leader_id method path body = elim (lookup leader_id f.http_addrs) [
    | none ↦ inr (message "unknown leader")
    | some addr ↦ elim (http.resolve addr path) [
      | inr err ↦ inr (message "parse leader address")
      | inl target ↦ read_answer (http.exchange method target body)
    ]
  ]
