-- ===== src/Transport/Server.antt =====
-- raftgrpc/server.go: the handlers of the gRPC server.
use rv_key_value.Base.{Bool, true, Option, none, some, if◌then◌else◌, Run, ret, ◌>>=◌}
use rv_key_value.Raft.Types.{StableStore, Error, AppendEntriesResponse}
use rv_key_value.Raft.Node.{RaftNode}
use rv_key_value.Raft.Vote.{request_vote, pre_vote}
use rv_key_value.Raft.Append.{handle_append_entries}
use rv_key_value.Transport.Messages.{
  PbRequestVoteRequest, PbRequestVoteResponse, PbPreVoteRequest, PbPreVoteResponse,
  PbAppendEntriesRequest, PbAppendEntriesResponse,
}
use rv_key_value.Transport.Convert.{
  from_proto_request_vote_request, to_proto_request_vote_response, from_proto_pre_vote_request,
  to_proto_pre_vote_response, from_proto_append_entries_request, to_proto_append_entries_response,
}

-- `append_reset` is `none` for a nil channel, and otherwise says whether its one slot is taken.
pub record Server (D : Type 0) : Type 0 where
  pub node : RaftNode D
  pub append_reset : Option Bool

-- `if err != nil { return nil, err }; return resp, nil`
abbrev pub answer : {R : Type 0} → Option R → Option Error → Option R × Option Error
answer resp (some err) = (none, some err)
answer resp none = (resp, none)

module _ {D : Type 0} where
  -- NewServer and NewServerWithAppendReset
  abbrev pub new_server : RaftNode D → Server D
  new_server n = record { node = n; append_reset = none }

  abbrev pub new_server_with_append_reset : RaftNode D → Option Bool → Server D
  new_server_with_append_reset n append_reset = record { node = n; append_reset = append_reset }

  -- (Server).RequestVote
  unfoldable pub serve_request_vote :
      ⦃stable : StableStore D⦄
      → Option PbRequestVoteRequest
      → Server D
      → Server D × Option PbRequestVoteResponse × Option Error
  serve_request_vote ⦃stable⦄ req s =
      let (n, resp, err) = request_vote (from_proto_request_vote_request req) s.node in
      let (r, e) = answer (to_proto_request_vote_response resp) err in (record s { node = n }, r, e)

  -- (Server).PreVote
  unfoldable pub serve_pre_vote :
      Option PbPreVoteRequest → Server D → Option PbPreVoteResponse × Option Error
  serve_pre_vote req s =
      let (resp, err) = pre_vote (from_proto_pre_vote_request req) s.node in
      answer (to_proto_pre_vote_response resp) err

  -- notifyAppendReset: a send that finds the slot taken is dropped.
  unfoldable pub notify_append_reset : Server D → Server D
  notify_append_reset s = elim s.append_reset [
    | none ↦ s
    | some taken ↦ record s { append_reset = some true }
  ]

  abbrev pub appended :
      Server D
      → RaftNode D × AppendEntriesResponse × Option Error
      → Server D × Option PbAppendEntriesResponse × Option Error
  appended s (n, resp, some err) = (record s { node = n }, none, some err)
  appended s (n, resp, none) =
      let s1 = record s { node = n } in
      (
        if resp.success then notify_append_reset s1 else s1,
        to_proto_append_entries_response resp,
        none,
      )

  -- (Server).AppendEntries
  unfoldable pub serve_append_entries :
      ⦃stable : StableStore D⦄
      → Option PbAppendEntriesRequest
      → Server D
      → Run (Server D × Option PbAppendEntriesResponse × Option Error)
  serve_append_entries ⦃stable⦄ req s = do
    r ← handle_append_entries (from_proto_append_entries_request req) s.node
    ret (appended s r)
