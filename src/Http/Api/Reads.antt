-- ===== src/Http/Api/Reads.antt =====
-- client/http.go: what an answer to a read means.
use rv_key_value.Base.{◌≡◌, ◌⊎◌, none, some, [], String, ◌>>=◌}
use rv_key_value.Raft.Types.{Bytes, StableStore}
use rv_key_value.Raft.Membership.{MembershipJson}
use rv_key_value.Raft.Node.{RaftNode}
use rv_key_value.Raft.Log.WellFormed.{IsWellFormed}
use rv_key_value.Store.Command.{KvJson, encode_command}
use rv_key_value.Store.Database.{Database}
use rv_key_value.Store.Machine.{KvStateMachine, get}
use rv_key_value.Http.Message.{Request, Response}
use rv_key_value.Http.Forward.{HttpClient}
use rv_key_value.Http.Proposing.{Api, ProposalRun, Progress, waits, answered, goes_on}
use rv_key_value.Http.Proposing.Acknowledged.{HasApplied, IsFailure, IsRelayed}
use rv_key_value.Http.Api.{ReadRun, Barrier, blocked, passed, noop_command, value_response}

module _ {D B : Type 0} ⦃stable : StableStore D⦄ ⦃members : MembershipJson⦄ ⦃database : Database B⦄
    ⦃json : KvJson⦄ (run : ProposalRun D B) (api : Api) (n : RaftNode D)
    (m : KvStateMachine B) where
  -- The barrier's command was proposed and applied.
  abbrev pub HasBarrier : RaftNode D → KvStateMachine B → Type 0
  HasBarrier = HasApplied run api.has_client (encode_command noop_command).0 n m

  -- What a barrier comes to, whose command is encoded.
  abbrev pub IsPassed : Bytes → Barrier D B → Type 0
  IsPassed command (blocked n' m') = IsWellFormed n'
  IsPassed command (passed n' m' (some err)) = IsWellFormed n'
  IsPassed command (passed n' m' none) =
      IsWellFormed n' × HasApplied run api.has_client command n m n' m'

module _ {D B : Type 0} ⦃stable : StableStore D⦄ ⦃members : MembershipJson⦄ ⦃database : Database B⦄
    ⦃json : KvJson⦄ ⦃http : HttpClient⦄ (run : ReadRun D B) (api : Api) (r : Request) (key : String)
    (n : RaftNode D) (m : KvStateMachine B) where
  -- What the state machine holds under the key, once the barrier has been applied.
  abbrev pub IsRead : RaftNode D → KvStateMachine B → Response → Type 0
  IsRead n' m' response =
      (n1 : RaftNode D) × (m1 : KvStateMachine B) × HasBarrier run.barrier api (run.before_state n)
        m n1 m1
      × ((n', m') ≡ run.before_get (n1, m1))
      × (response ≡ value_response (get key m'))

  abbrev pub Reads : Progress D B → Type 0
  Reads (waits n' m') = IsWellFormed n'
  Reads (goes_on n' m') = ⊥
  Reads (answered n' m' response) =
      IsWellFormed n'
      × (IsRead n' m' response ⊎ IsFailure response ⊎ IsRelayed api r [] n' response)
