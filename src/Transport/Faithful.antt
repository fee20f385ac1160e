-- ===== src/Transport/Faithful.antt =====
-- raftgrpc: what reaches a node through a connection is what its peer sent, and the answer comes back.
use rv_key_value.Base.{Option, none, some, List, [], ◌∷◌, ◌≡◌, refl, String, if◌then◌else◌, ret}
use rv_key_value.Base.Map.{lookup}
use rv_key_value.Raft.Types.{
  LogEntry, StableStore, Error, RequestVoteRequest, RequestVoteResponse, PreVoteRequest,
  PreVoteResponse, AppendEntriesRequest, AppendEntriesResponse,
}
use rv_key_value.Raft.Node.{RaftNode}
use rv_key_value.Raft.Vote.{request_vote, pre_vote}
use rv_key_value.Raft.Append.{handle_append_entries}
use rv_key_value.Transport.Messages.{
  PbRequestVoteRequest, PbPreVoteRequest, PbAppendEntriesRequest, PbAppendEntriesResponse,
}
use rv_key_value.Transport.Convert.{
  to_proto_request_vote_request, from_proto_request_vote_request, to_proto_request_vote_response,
  from_proto_request_vote_response, to_proto_pre_vote_request, from_proto_pre_vote_request,
  to_proto_pre_vote_response, from_proto_pre_vote_response, to_proto_append_entries_request,
  from_proto_append_entries_request, to_proto_append_entries_response,
  from_proto_append_entries_response, to_proto_log_entries, from_proto_log_entries,
}
use rv_key_value.Transport.Server.{
  Server, answer, serve_request_vote, serve_pre_vote, serve_append_entries, notify_append_reset,
  appended,
}
use rv_key_value.Transport.Client.{
  RaftClient, PeerClient, no_vote, no_pre_vote, no_append, checked, send_request_vote,
  send_pre_vote, send_append_entries,
}

from_proto_log_entries-to_proto_log_entries :
    (es : List LogEntry) → from_proto_log_entries (to_proto_log_entries es) ≡ es
unfolding from_proto_log_entries to_proto_log_entries
from_proto_log_entries-to_proto_log_entries [] = refl
from_proto_log_entries-to_proto_log_entries (e ∷ es) =
    rw (from_proto_log_entries-to_proto_log_entries es)

-- Every message that is converted for the wire and back is the message that was sent: the requests
-- and responses of RequestVote, PreVote and AppendEntries, with their log entries.
pub from_proto-to_proto :
    ((m : RequestVoteRequest)
      → from_proto_request_vote_request (to_proto_request_vote_request m) ≡ m)
    × ((m : RequestVoteResponse)
        → from_proto_request_vote_response (to_proto_request_vote_response m) ≡ m)
    × ((m : PreVoteRequest) → from_proto_pre_vote_request (to_proto_pre_vote_request m) ≡ m)
    × ((m : PreVoteResponse) → from_proto_pre_vote_response (to_proto_pre_vote_response m) ≡ m)
    × ((m : AppendEntriesRequest)
        → from_proto_append_entries_request (to_proto_append_entries_request m) ≡ m)
    × ((m : AppendEntriesResponse)
        → from_proto_append_entries_response (to_proto_append_entries_response m) ≡ m)
unfolding from_proto_request_vote_request to_proto_request_vote_request
    from_proto_request_vote_response to_proto_request_vote_response from_proto_pre_vote_request
    to_proto_pre_vote_request from_proto_pre_vote_response to_proto_pre_vote_response
    from_proto_append_entries_request to_proto_append_entries_request
    from_proto_append_entries_response to_proto_append_entries_response
from_proto-to_proto = (
  λ m. refl,
  λ m. refl,
  λ m. refl,
  λ m. refl,
  λ m. rw (from_proto_log_entries-to_proto_log_entries m.entries),
  λ m. refl,
)

-- A failure of the handler reaches the caller as another error, with no response.
abbrev pub carried :
    {W R : Type 0} → (Error → Error) → W × Option R × Option Error → W × Option R × Option Error
carried status (w, resp, some err) = (w, none, some (status err))
carried status (w, resp, none) = (w, resp, none)

-- What a call on the connection `conn` does, if it reaches its server and the answer comes back:
-- gRPC hands the message to the handler there, and returns what the handler returned.
pub record Delivers {C W D : Type 0} ⦃client : RaftClient C W⦄ ⦃stable : StableStore D⦄
    (status : Error → Error) (server_in : W → Server D) (with_server : Server D → W → W) (conn : C)
    : Type 0 where
  pub delivers_vote :
      (req : Option PbRequestVoteRequest) (w : W)
      → client.call_request_vote conn req w ≡ (
          let (s, r, e) = serve_request_vote req (server_in w) in
          carried status (with_server s w, r, e))
  pub delivers_pre_vote :
      (req : Option PbPreVoteRequest) (w : W)
      → client.call_pre_vote conn req w
        ≡ (let (r, e) = serve_pre_vote req (server_in w) in carried status (w, r, e))
  pub delivers_append :
      (req : Option PbAppendEntriesRequest) (w : W) (s : Server D)
      (r : Option PbAppendEntriesResponse) (e : Option Error)
      → serve_append_entries req (server_in w) ≡ ret (s, r, e)
      → client.call_append_entries conn req w ≡ carried status (with_server s w, r, e)

-- What the caller of a method of PeerClient is to see of what the handler returned.
abbrev pub seen : {W R : Type 0} → (Error → Error) → R → W × R × Option Error → W × R × Option Error
seen status zero_value (w, resp, some err) = (w, zero_value, some (status err))
seen status zero_value (w, resp, none) = (w, resp, none)

module _ {W D : Type 0} (status : Error → Error) (with_server : Server D → W → W) where
  vote_carried :
      (s : Server D) (w : W) (result : RaftNode D × RequestVoteResponse × Option Error)
      → (let (n, resp, err) = result in
          let (r, e) = answer (to_proto_request_vote_response resp) err in
          checked no_vote from_proto_request_vote_response
            (carried status (with_server (record s { node = n }) w, r, e)))
        ≡ (let (n, resp, err) = result in
            seen status no_vote (with_server (record s { node = n }) w, resp, err))
  unfolding from_proto_request_vote_response to_proto_request_vote_response
  vote_carried s w (n, resp, none) = refl
  vote_carried s w (n, resp, some err) = refl

  pre_vote_carried :
      (w : W) (result : PreVoteResponse × Option Error)
      → (let (resp, err) = result in
          let (r, e) = answer (to_proto_pre_vote_response resp) err in
          checked no_pre_vote from_proto_pre_vote_response (carried status (w, r, e)))
        ≡ (let (resp, err) = result in seen status no_pre_vote (w, resp, err))
  unfolding from_proto_pre_vote_response to_proto_pre_vote_response
  pre_vote_carried w (resp, none) = refl
  pre_vote_carried w (resp, some err) = refl

-- The server after AppendEntries: it holds the node, and a success is notified.
abbrev pub after_append :
    {D : Type 0} → Server D → RaftNode D → AppendEntriesResponse → Option Error → Server D
after_append s n resp (some err) = record s { node = n }
after_append s n resp none =
    if resp.success then notify_append_reset (record s { node = n }) else record s { node = n }

module _ {D : Type 0} where
  serve_lem :
      ⦃stable : StableStore D⦄ (req : AppendEntriesRequest) (s : Server D)
      (result : RaftNode D × AppendEntriesResponse × Option Error)
      → handle_append_entries req s.node ≡ ret result
      → serve_append_entries (to_proto_append_entries_request req) s ≡ ret (appended s result)
  unfolding serve_append_entries
  serve_lem req s result handled = rw (from_proto-to_proto.4 req) (rw handled)

  append_carried :
      {W : Type 0} (status : Error → Error) (with_server : Server D → W → W) (s : Server D) (w : W)
      (n : RaftNode D) (resp : AppendEntriesResponse) (err : Option Error)
      → (let (s', r, e) = appended s (n, resp, err) in
          checked no_append from_proto_append_entries_response
            (carried status (with_server s' w, r, e)))
        ≡ seen status no_append (with_server (after_append s n resp err) w, resp, err)
  unfolding from_proto_append_entries_response to_proto_append_entries_response
  append_carried status with_server s w n resp none = refl
  append_carried status with_server s w n resp (some err) = refl

-- A call through the PeerClient on a connection that delivers is a call of the peer's own handler:
-- RequestVote, PreVote and AppendEntries find the request as the caller wrote it, leave the peer's
-- node as its handler leaves it, and return its response, or the zero response with the status of
-- its error. A successful AppendEntries is notified to the peer's election timer, and nothing else
-- is. The handler of AppendEntries is assumed not to panic at the request.
pub send-handle :
    {C W D : Type 0} ⦃client : RaftClient C W⦄ ⦃stable : StableStore D⦄ (status : Error → Error)
    (server_in : W → Server D) (with_server : Server D → W → W) (c : PeerClient C)
    (peer_id : String) (conn : C) (w : W) (vote : RequestVoteRequest) (ask : PreVoteRequest)
    (append : AppendEntriesRequest) (n : RaftNode D) (resp : AppendEntriesResponse)
    (err : Option Error)
    → lookup peer_id c.clients ≡ some conn
    → Delivers status server_in with_server conn
    → handle_append_entries append (server_in w).node ≡ ret (n, resp, err)
    → (send_request_vote peer_id vote c w ≡ (
        let (n', resp', err') = request_vote vote (server_in w).node in
        seen status no_vote (with_server (record (server_in w) { node = n' }) w, resp', err')))
      × (send_pre_vote peer_id ask c w ≡ (
          let (resp', err') = pre_vote ask (server_in w).node in
          seen status no_pre_vote (w, resp', err')))
      × (send_append_entries peer_id append c w
          ≡ seen status no_append
              (with_server (after_append (server_in w) n resp err) w, resp, err))
unfolding send_request_vote send_pre_vote send_append_entries serve_request_vote serve_pre_vote
    from_proto_request_vote_request to_proto_request_vote_request from_proto_pre_vote_request
    to_proto_pre_vote_request
send-handle status server_in with_server c peer_id conn w vote ask append n resp err e d handled = (
  rw (e, send_request_vote)
      (rw (d.delivers_vote (to_proto_request_vote_request vote) w)
        (vote_carried status with_server (server_in w) w (request_vote vote (server_in w).node))),
  rw (e, send_pre_vote)
      (rw (d.delivers_pre_vote (to_proto_pre_vote_request ask) w)
        (pre_vote_carried status with_server w (pre_vote ask (server_in w).node))),
  rw (e, send_append_entries)
      (rw
        (d.delivers_append (to_proto_append_entries_request append) w _ _ _
          (serve_lem append (server_in w) (n, resp, err) handled))
        (append_carried status with_server (server_in w) w n resp err)),
)
