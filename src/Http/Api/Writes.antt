-- ===== src/Http/Api/Writes.antt =====
-- client/http.go: what an answer to a write means.
use rv_key_value.Base.{◌≡◌, ◌⊎◌, Option, none, some, [], ◌>>=◌}
use rv_key_value.Raft.Types.{Bytes, Error, StableStore}
use rv_key_value.Raft.Membership.{MembershipJson, MembershipChange, encode_membership_change}
use rv_key_value.Raft.Node.{RaftNode}
use rv_key_value.Raft.Log.WellFormed.{IsWellFormed}
use rv_key_value.Store.Command.{KvJson}
use rv_key_value.Store.Database.{Database}
use rv_key_value.Store.Machine.{KvStateMachine}
use rv_key_value.Http.Message.{Request, Response, no_content}
use rv_key_value.Http.Forward.{HttpClient}
use rv_key_value.Http.Proposing.{Api, ProposalRun, Progress, waits, answered, goes_on}
use rv_key_value.Http.Proposing.Acknowledged.{HasApplied, IsFailure, IsRelayed}

-- The status of a request that is turned down before anything is proposed.
abbrev pub IsRefusal : Response → Type 0
IsRefusal response = (response.status ≡ 400) ⊎ (response.status ≡ 405) ⊎ (response.status ≡ 413)

-- The command of a change of a member; there is none for another method.
abbrev pub encoded_change :
    ⦃members : MembershipJson⦄ → Option MembershipChange → Bytes × Option Error
encoded_change ⦃members⦄ none = ([], none)
encoded_change ⦃members⦄ (some change) = encode_membership_change change

module _ {D B : Type 0} ⦃stable : StableStore D⦄ ⦃members : MembershipJson⦄ ⦃database : Database B⦄
    ⦃json : KvJson⦄ ⦃http : HttpClient⦄ (run : ProposalRun D B) (api : Api) (r : Request)
    (n : RaftNode D) (m : KvStateMachine B) where
  -- What a handler of a write comes to, whose command is encoded. Its proposal waits; or the write is
  -- acknowledged, and the command was proposed and applied; or nothing has happened; or the proposal
  -- failed; or the response is that of the leader.
  abbrev pub Writes : Bytes × Option Error → Bytes → Progress D B → Type 0
  Writes encoded body (waits n' m') = IsWellFormed n'
  Writes encoded body (goes_on n' m') = ⊥
  Writes encoded body (answered n' m' response) =
      IsWellFormed n'
      × (((response ≡ no_content)
            × (encoded.1 ≡ none)
            × HasApplied run api.has_client encoded.0 n m n' m')
          ⊎ (IsRefusal response × (n' ≡ n) × (m' ≡ m))
          ⊎ IsFailure response
          ⊎ IsRelayed api r body n' response)
