-- ===== src/Http/Proposing.antt =====
-- client/http.go: a handler proposes a command, applies what is committed, and answers a failure.
pub mod Acknowledged
use rv_key_value.Base.{
  ℕ, String, Bool, Option, none, some, List, [], str_eq, if◌then◌else◌, ◌||◌, ◌⊎◌, inl, inr, Run,
  ret, ◌>>=◌,
}
use rv_key_value.Raft.Types.{
  Bytes, Error, StableStore, log_inconsistent, unknown_peer, membership_change_pending, not_leader,
  message, unsupported, deadline_exceeded, canceled,
}
use rv_key_value.Raft.Membership.{MembershipJson}
use rv_key_value.Raft.Node.{RaftNode}
use rv_key_value.Raft.Apply.{apply_committed}
use rv_key_value.Raft.Election.{Effect}
use rv_key_value.Raft.Replicate.{Attempt, returned, waiting, propose}
use rv_key_value.Store.Command.{KvJson}
use rv_key_value.Store.Database.{Database}
use rv_key_value.Store.Machine.{KvStateMachine, kv_state_machine}
use rv_key_value.Http.Message.{Request, Response, text, error_text, raw, http_error}
use rv_key_value.Http.Forward.{HttpClient, LeaderForwarder, ForwardResponse, forward}

-- API: the node and the state machine are passed along. `has_client` is false where the append client
-- is nil; the timeout of a proposal and its retry interval are the environment's.
pub record Api : Type 0 where
  pub has_client : Bool
  pub leader_forwarder : Option LeaderForwarder

-- NewHTTPHandlerWithForwarding, and NewHTTPHandler.
abbrev pub new_api : Bool → Option LeaderForwarder → Api
new_api has_client leader_forwarder = record {
  has_client = has_client;
  leader_forwarder = leader_forwarder;
}

abbrev pub new_plain_api : Bool → Api
new_plain_api has_client = new_api has_client none

-- What happens around a proposal of a handler: how its context stands, the attempts, and what other
-- goroutines do before its critical sections.
pub record ProposalRun (D B : Type 0) : Type 0 where
  pub context : Option Error
  pub before_append : Effect D
  pub attempts : List (Attempt D)
  pub before_apply : RaftNode D × KvStateMachine B → RaftNode D × KvStateMachine B
  pub before_leader : Effect D

-- How a handler stands: its proposal waits, it has written its response, or it goes on.
pub data Progress (D B : Type 0) : Type 0 where
  waits : RaftNode D → KvStateMachine B → Progress D B
  answered : RaftNode D → KvStateMachine B → Response → Progress D B
  goes_on : RaftNode D → KvStateMachine B → Progress D B

-- errors.As with ErrNotLeader, and errors.Is with context.DeadlineExceeded.
pub data Failure : Type 0 where
  leads_not timed_out another : Failure

unfoldable pub failure_of : Error → Failure
failure_of (not_leader s) = leads_not
failure_of deadline_exceeded = timed_out
failure_of (log_inconsistent i t) = another
failure_of (unknown_peer p) = another
failure_of membership_change_pending = another
failure_of (message m) = another
failure_of (unsupported t) = another
failure_of canceled = another

-- The response that forwardToLeader writes.
abbrev pub relayed : ForwardResponse ⊎ Error → Response
relayed (inr err) = http_error (error_text err) 502
relayed (inl forwarded) = record {
  status = forwarded.status_code;
  header = forwarded.header;
  payload = raw forwarded.body;
}

abbrev pub or_response : Response → Option Response → Response
or_response response none = response
or_response response (some other) = other

module _ {D : Type 0} ⦃http : HttpClient⦄ where
  -- forwardToLeader: the response that it writes, or `none` where it returns false.
  unfoldable pub forward_to_leader : Api → Request → Bytes → RaftNode D → Option Response
  forward_to_leader api r body n = elim api.leader_forwarder [
    | none ↦ none
    | some f ↦
        if str_eq n.leader_id "" || str_eq n.leader_id n.id
        then none
        else some (relayed (forward f n.leader_id r.method r.path body))
  ]

  abbrev pub answer_as : Failure → Api → Request → Bytes → Error → RaftNode D → Response
  answer_as leads_not api r forward_body err n =
      or_response (http_error (text "not leader") 409) (forward_to_leader api r forward_body n)
  answer_as timed_out api r forward_body err n = http_error (text "proposal timed out") 504
  answer_as another api r forward_body err n = http_error (error_text err) 500

  -- The answer of proposeAndApply to an error of the proposal.
  unfoldable pub answer_failure : Api → Request → Bytes → Error → RaftNode D → Response
  unfolding failure_of
  answer_failure api r forward_body err n = answer_as (failure_of err) api r forward_body err n

module _ {D B : Type 0} where
  abbrev pub applied_progress : RaftNode D × KvStateMachine B × Option Error → Progress D B
  applied_progress (n, m, some err) = answered n m (http_error (error_text err) 500)
  applied_progress (n, m, none) = goes_on n m

module _ {D B : Type 0} ⦃stable : StableStore D⦄ ⦃members : MembershipJson⦄ ⦃database : Database B⦄
    ⦃json : KvJson⦄ where
  -- ApplyCommitted at the end of a handler's proposal. Its loop does not run out of fuel.
  unfoldable pub apply_proposed :
      RaftNode D × KvStateMachine B → Run (RaftNode D × KvStateMachine B × Option Error)
  apply_proposed (n, m) = do
    applied ← apply_committed n m
    elim applied [ none ↦ Run.panic | some r ↦ ret r ]

module _ {D B : Type 0} ⦃stable : StableStore D⦄ ⦃members : MembershipJson⦄ ⦃database : Database B⦄
    ⦃json : KvJson⦄ ⦃http : HttpClient⦄ where
  -- proposeAndApply
  unfoldable pub propose_and_apply :
      ProposalRun D B
      → Api
      → Request
      → Bytes
      → Bytes
      → RaftNode D
      → KvStateMachine B
      → Run (Progress D B)
  unfolding answer_failure apply_proposed
  propose_and_apply run api r command forward_body n m = do
    proposal ← propose run.context api.has_client run.before_append command run.attempts n
    elim proposal [
      | waiting n1 ↦ ret (waits n1 m)
      | returned n1 entry (some err) ↦
          let n2 = run.before_leader n1 in
          ret (answered n2 m (answer_failure api r forward_body err n2))
      | returned n1 entry none ↦ do
        applied ← apply_proposed (run.before_apply (n1, m))
        ret (applied_progress applied)
    ]
