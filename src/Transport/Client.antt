-- ===== src/Transport/Client.antt =====
-- raftgrpc/client.go: the calls of a node to its peers.
use rv_key_value.Base.{String, Option, none, some, List, [], ◌∷◌, ◌++◌, false, ◌⊎◌, inl, inr}
use rv_key_value.Base.Map.{Map, lookup, insert}
use rv_key_value.Raft.Types.{
  Error, message, RequestVoteRequest, RequestVoteResponse, PreVoteRequest, PreVoteResponse,
  AppendEntriesRequest, AppendEntriesResponse,
}
use rv_key_value.Transport.Messages.{
  PbRequestVoteRequest, PbRequestVoteResponse, PbPreVoteRequest, PbPreVoteResponse,
  PbAppendEntriesRequest, PbAppendEntriesResponse,
}
use rv_key_value.Transport.Convert.{
  to_proto_request_vote_request, from_proto_request_vote_response, to_proto_pre_vote_request,
  from_proto_pre_vote_response, to_proto_append_entries_request, from_proto_append_entries_response,
}

-- The generated RaftClient, as a parameter: a call on a connection, and what it does to the world.
pub record RaftClient (C W : Type 0) : Type 0 where
  pub call_request_vote :
      C → Option PbRequestVoteRequest → W → W × Option PbRequestVoteResponse × Option Error
  pub call_pre_vote : C → Option PbPreVoteRequest → W → W × Option PbPreVoteResponse × Option Error
  pub call_append_entries :
      C → Option PbAppendEntriesRequest → W → W × Option PbAppendEntriesResponse × Option Error

-- grpc.NewClient, and Close of a connection.
pub record Dialer (C W : Type 0) : Type 0 where
  pub new_client : String → W → W × (C ⊎ Error)
  pub close_client : C → W → W × Option Error

pub record PeerClient (C : Type 0) : Type 0 where
  pub clients : Map C

abbrev pub no_vote : RequestVoteResponse
no_vote = record { term = 0; vote_granted = false }

abbrev pub no_pre_vote : PreVoteResponse
no_pre_vote = record { term = 0; vote_granted = false }

abbrev pub no_append : AppendEntriesResponse
no_append = record { term = 0; success = false }

-- `if err != nil { return zero, err }; return convert(resp), nil`
abbrev pub checked :
    {W R S : Type 0} → S → (Option R → S) → W × Option R × Option Error → W × S × Option Error
checked zero_value convert (w, resp, some err) = (w, zero_value, some err)
checked zero_value convert (w, resp, none) = (w, convert resp, none)

module _ {C W : Type 0} ⦃dialer : Dialer C W⦄ where
  -- closeConnections: the errors that it joins.
  unfoldable pub close_connections : List C → W → W × List Error
  close_connections [] w = (w, [])
  close_connections (conn ∷ conns) w =
      let (w1, err) = dialer.close_client conn w in
      let (w2, joined) = close_connections conns w1 in
      (w2, elim err [ none ↦ joined | some e ↦ e ∷ joined ])

  -- The body of the loop of DialPeerClient: `conns` and `clients` after the peer, or the failure.
  abbrev pub dialed :
      String
      → List C
      → Map C
      → W × (C ⊎ Error)
      → (List C → Map C → W → W × (PeerClient C × List C ⊎ Error))
      → W × (PeerClient C × List C ⊎ Error)
  dialed id conns clients (w, inl conn) rest = rest (conns ++ conn ∷ []) (insert id conn clients) w
  dialed id conns clients (w, inr err) rest =
      ((close_connections conns w).0, inr (message "dial peer"))

  unfoldable pub dial_peers : Map String → List C → Map C → W → W × (PeerClient C × List C ⊎ Error)
  dial_peers [] conns clients w = (w, inl (record { clients = clients }, conns))
  dial_peers ((id, addr) ∷ peers) conns clients w =
      dialed id conns clients (dialer.new_client addr w) (dial_peers peers)

  -- DialPeerClient: the client with the connections that its closing function closes.
  unfoldable pub dial_peer_client : Map String → W → W × (PeerClient C × List C ⊎ Error)
  unfolding dial_peers
  dial_peer_client peers w = dial_peers peers [] [] w

module _ {C W : Type 0} ⦃client : RaftClient C W⦄ where
  -- (PeerClient).RequestVote
  unfoldable pub send_request_vote :
      String → RequestVoteRequest → PeerClient C → W → W × RequestVoteResponse × Option Error
  send_request_vote peer_id req c w = elim (lookup peer_id c.clients) [
    | none ↦ (w, no_vote, some (message "unknown peer"))
    | some conn ↦
        checked no_vote from_proto_request_vote_response
          (client.call_request_vote conn (to_proto_request_vote_request req) w)
  ]

  -- (PeerClient).PreVote
  unfoldable pub send_pre_vote :
      String → PreVoteRequest → PeerClient C → W → W × PreVoteResponse × Option Error
  send_pre_vote peer_id req c w = elim (lookup peer_id c.clients) [
    | none ↦ (w, no_pre_vote, some (message "unknown peer"))
    | some conn ↦
        checked no_pre_vote from_proto_pre_vote_response
          (client.call_pre_vote conn (to_proto_pre_vote_request req) w)
  ]

  -- (PeerClient).AppendEntries
  unfoldable pub send_append_entries :
      String → AppendEntriesRequest → PeerClient C → W → W × AppendEntriesResponse × Option Error
  send_append_entries peer_id req c w = elim (lookup peer_id c.clients) [
    | none ↦ (w, no_append, some (message "unknown peer"))
    | some conn ↦
        checked no_append from_proto_append_entries_response
          (client.call_append_entries conn (to_proto_append_entries_request req) w)
  ]
