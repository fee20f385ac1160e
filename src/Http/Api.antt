-- ===== src/Http/Api.antt =====
-- client/http.go: the handlers of /kv/, /cluster/members and /cluster/members/.
pub mod Refusals
pub mod Writes
pub mod Reads
use rv_key_value.Base.{
  ℕ, String, Bool, true, false, Option, none, some, List, [], ◌∷◌, not, str_eq, if◌then◌else◌, ◌||◌,
  Run, ret, ◌>>=◌,
}
use rv_key_value.Base.Texts.{trim_prefix, contains_char}
use rv_key_value.Raft.Types.{Bytes, Error, StableStore}
use rv_key_value.Raft.Membership.{
  MembershipJson, MembershipChange, MembershipChangeType, encode_membership_change,
}
use rv_key_value.Raft.Node.{RaftNode, is_leader, members}
use rv_key_value.Raft.Election.{Effect}
use rv_key_value.Raft.Replicate.{returned, waiting, propose}
use rv_key_value.Store.Command.{KvCommand, KvOperation, KvJson, encode_command}
use rv_key_value.Store.Database.{Database}
use rv_key_value.Store.Machine.{KvStateMachine, get}
use rv_key_value.Http.Message.{
  Request, Response, text, error_text, raw, member_list, http_error, method_not_allowed, no_content,
  complete, too_large, read_failed, read_limited,
}
use rv_key_value.Http.Forward.{HttpClient}
use rv_key_value.Http.Proposing.{
  Api, ProposalRun, Progress, waits, answered, goes_on, Failure, leads_not, timed_out, another,
  failure_of, or_response, forward_to_leader, apply_proposed, propose_and_apply,
}

abbrev pub max_kv_value_bytes : ℕ
max_kv_value_bytes = 1048576

-- What happens around a read: before the node's state is looked at, around the proposal of its
-- barrier, and before the value is read.
pub record ReadRun (D B : Type 0) : Type 0 where
  pub before_state : Effect D
  pub before_leader : Effect D
  pub barrier : ProposalRun D B
  pub before_get : RaftNode D × KvStateMachine B → RaftNode D × KvStateMachine B

-- How a barrier stands: its proposal waits, or it has returned an error or none.
pub data Barrier (D B : Type 0) : Type 0 where
  blocked : RaftNode D → KvStateMachine B → Barrier D B
  passed : RaftNode D → KvStateMachine B → Option Error → Barrier D B

abbrev pub is_bad_name : String → Bool
is_bad_name name = str_eq name "" || contains_char name b'/'

abbrev pub noop_command : KvCommand
noop_command = record { operation = KvOperation.noop; key = ""; value = [] }

abbrev pub put_command : String → Bytes → KvCommand
put_command key value = record { operation = KvOperation.put; key = key; value = value }

abbrev pub delete_command : String → KvCommand
delete_command key = record { operation = KvOperation.delete; key = key; value = [] }

-- The response of handleGet to an error of its barrier.
unfoldable pub barrier_failure : Error → Response
unfolding failure_of
barrier_failure err = elim (failure_of err) [
  | timed_out ↦ http_error (text "read timed out") 504
  | leads_not ↦ http_error (text "not leader") 409
  | another ↦ http_error (error_text err) 500
]

-- The response of handleGet to what the state machine holds.
abbrev pub value_response : Option Bytes → Response
value_response none = http_error (text "not found") 404
value_response (some value) = record { status = 200; header = []; payload = raw value }

module _ {D B : Type 0} where
  -- `if !a.proposeAndApply(...) { return }; w.WriteHeader(http.StatusNoContent)`
  abbrev pub then_no_content : Progress D B → Progress D B
  then_no_content (waits n m) = waits n m
  then_no_content (answered n m response) = answered n m response
  then_no_content (goes_on n m) = answered n m no_content

  -- The end of handleGet.
  unfoldable pub answer_read :
      (RaftNode D × KvStateMachine B → RaftNode D × KvStateMachine B)
      → String
      → Barrier D B
      → Progress D B
  unfolding barrier_failure get
  answer_read before_get key (blocked n m) = waits n m
  answer_read before_get key (passed n m (some err)) = answered n m (barrier_failure err)
  answer_read before_get key (passed n m none) =
      let (n1, m1) = before_get (n, m) in answered n1 m1 (value_response (get key m1))

-- handleClusterMembers
unfoldable pub handle_cluster_members : {D : Type 0} → Request → RaftNode D → Response
handle_cluster_members r n =
    if not (str_eq r.path "/cluster/members")
    then http_error (text "404 page not found") 404
    else if not (str_eq r.method "GET")
    then method_not_allowed "GET"
    else record {
      status = 200;
      header = ("Content-Type", "application/json") ∷ [];
      payload = member_list n.leader_id (members n);
    }

-- The change that handleClusterMember makes of a method.
unfoldable pub change_of : String → String → Option MembershipChange
change_of method peer_id =
    if str_eq method "PUT"
    then some (record { change_type = MembershipChangeType.add_peer; peer_id = peer_id })
    else if str_eq method "DELETE"
    then some (record { change_type = MembershipChangeType.remove_peer; peer_id = peer_id })
    else none

module _ {D B : Type 0} ⦃stable : StableStore D⦄ ⦃changes : MembershipJson⦄ ⦃database : Database B⦄
    ⦃json : KvJson⦄ where
  -- readBarrier
  unfoldable pub read_barrier :
      ProposalRun D B → Api → RaftNode D → KvStateMachine B → Run (Barrier D B)
  read_barrier run api n m =
      let (command, err) = encode_command noop_command in
      elim err [
        | some e ↦ ret (passed n m (some e))
        | none ↦ do
          proposal ← propose run.context api.has_client run.before_append command run.attempts n
          elim proposal [
            | waiting n1 ↦ ret (blocked n1 m)
            | returned n1 entry (some e) ↦ ret (passed n1 m (some e))
            | returned n1 entry none ↦ do
              (n2, m2, applied) ← apply_proposed (run.before_apply (n1, m))
              ret (passed n2 m2 applied)
          ]
      ]

module _ {D B : Type 0} ⦃stable : StableStore D⦄ ⦃changes : MembershipJson⦄ ⦃database : Database B⦄
    ⦃json : KvJson⦄ ⦃http : HttpClient⦄ where
  -- handleGet
  unfoldable pub handle_get :
      ReadRun D B → Api → Request → String → RaftNode D → KvStateMachine B → Run (Progress D B)
  unfolding answer_read read_barrier
  handle_get run api r key n m =
      let n1 = run.before_state n in
      if not (is_leader n1.state)
      then (let n2 = run.before_leader n1 in
          ret (
            answered n2 m
              (or_response (http_error (text "not leader") 409) (forward_to_leader api r [] n2))))
      else (do
        barrier ← read_barrier run.barrier api n1 m
        ret (answer_read run.before_get key barrier))

  -- handlePut
  unfoldable pub handle_put :
      ProposalRun D B → Api → Request → String → RaftNode D → KvStateMachine B → Run (Progress D B)
  unfolding propose_and_apply read_limited
  handle_put run api r key n m = elim (read_limited max_kv_value_bytes r.body) [
    | too_large ↦ ret (answered n m (http_error (text "request body too large") 413))
    | read_failed ↦ ret (answered n m (http_error (text "read body") 400))
    | complete value ↦
        let (command, err) = encode_command (put_command key value) in
        elim err [
          | some e ↦ ret (answered n m (http_error (error_text e) 400))
          | none ↦ do
            progress ← propose_and_apply run api r command value n m
            ret (then_no_content progress)
        ]
  ]

  -- handleDelete
  unfoldable pub handle_delete :
      ProposalRun D B → Api → Request → String → RaftNode D → KvStateMachine B → Run (Progress D B)
  unfolding propose_and_apply
  handle_delete run api r key n m =
      let (command, err) = encode_command (delete_command key) in
      elim err [
        | some e ↦ ret (answered n m (http_error (error_text e) 400))
        | none ↦ do
          progress ← propose_and_apply run api r command [] n m
          ret (then_no_content progress)
      ]

  -- handleKV; a write runs with the run of the barrier.
  unfoldable pub handle_kv :
      ReadRun D B → Api → Request → RaftNode D → KvStateMachine B → Run (Progress D B)
  unfolding handle_get handle_put handle_delete
  handle_kv run api r n m =
      let key = trim_prefix r.path "/kv/" in
      if is_bad_name key
      then ret (answered n m (http_error (text "invalid key") 400))
      else if str_eq r.method "GET"
      then handle_get run api r key n m
      else if str_eq r.method "PUT"
      then handle_put run.barrier api r key n m
      else if str_eq r.method "DELETE"
      then handle_delete run.barrier api r key n m
      else ret (answered n m (method_not_allowed "GET, PUT, DELETE"))

  -- handleClusterMember
  unfoldable pub handle_cluster_member :
      ProposalRun D B → Api → Request → RaftNode D → KvStateMachine B → Run (Progress D B)
  unfolding propose_and_apply change_of
  handle_cluster_member run api r n m =
      let peer_id = trim_prefix r.path "/cluster/members/" in
      if is_bad_name peer_id
      then ret (answered n m (http_error (text "invalid member id") 400))
      else elim (change_of r.method peer_id) [
        | none ↦ ret (answered n m (method_not_allowed "PUT, DELETE"))
        | some change ↦
            let (command, err) = encode_membership_change change in
            elim err [
              | some e ↦ ret (answered n m (http_error (error_text e) 400))
              | none ↦ do
                progress ← propose_and_apply run api r command [] n m
                ret (then_no_content progress)
            ]
      ]
