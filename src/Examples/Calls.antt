-- ===== src/Examples/Calls.antt =====
-- Calls between nodes over a network that delivers.
use rv_key_value.Base.{
  ℕ, suc, ◌-◌, String, true, false, Option, none, some, [], ◌∷◌, ◌≡◌, inl, inr, refl, str_eq,
  if◌then◌else◌, Bool-cases, Run, ret, panic,
}
use rv_key_value.Base.Map.{Map, lookup}
use rv_key_value.Raft.Types.{
  PersistentState, RequestVoteRequest, PreVoteRequest, AppendEntriesRequest, Error, message,
}
use rv_key_value.Raft.Vote.{request_vote, pre_vote}
use rv_key_value.Raft.Log.{
  append_entries_to_log, append_loop, last_log_index, first_log_index, contains_log_index, entry_at,
  log_term_at, last_entry?, normalize_entries,
}
use rv_key_value.Raft.Append.{follow_leader, follow_commit, persist_if, handle_append_entries}
use rv_key_value.Transport.Messages.{PbAppendEntriesResponse}
use rv_key_value.Transport.Client.{
  send_append_entries, no_pre_vote, send_pre_vote, no_vote, send_request_vote, Dialer, RaftClient,
  PeerClient, dial_peer_client,
}
use rv_key_value.Transport.Server.{
  notify_append_reset, Server, new_server_with_append_reset, serve_request_vote, serve_pre_vote,
  serve_append_entries,
}
use rv_key_value.Transport.Dialing.{IsNetwork, Opens, IsDialed, dial_peer_client-IsDialed}
use rv_key_value.Transport.Faithful.{Delivers, carried, seen, send-handle}
use rv_key_value.Raft.Node.{persist, is_member, contains_peer, RaftNode}
use rv_key_value.Examples.{disk_store, new_node, entry}

-- A connection is the address that it reaches, and the world counts them.
instance abbrev counting : Dialer String ℕ
counting = record {
  new_client =
      λ addr w. if str_eq addr "" then (w, inr (message "no address")) else (suc w, inl addr);
  close_client = λ conn w. (w - 1, none);
}

abbrev Reached : String → String → Type 0
Reached addr conn = conn ≡ addr

counting-Opens :
    (addr : String) (w : ℕ) → Opens (λ (n : ℕ). n) Reached addr w (counting.new_client addr w)
counting-Opens addr w = elim (Bool-cases (str_eq addr "")) [
  | inl e ↦ rw e refl
  | inr e ↦ rw e (refl, refl)
]

counting-IsNetwork : IsNetwork (λ (n : ℕ). n) Reached
counting-IsNetwork = record { opens = counting-Opens; closes = λ conn w. refl }

abbrev addresses : Map String
addresses = ("b", "host:9002") ∷ ("c", "host:9003") ∷ []

dial_peer_client-IsDialed_example :
    IsDialed (λ (n : ℕ). n) Reached counting-IsNetwork addresses 5 (dial_peer_client addresses 5)
unfolding lookup
dial_peer_client-IsDialed_example =
    dial_peer_client-IsDialed (λ (n : ℕ). n) Reached counting-IsNetwork addresses 5
      (refl, (refl, tt))

-- The one connection reaches the server that is the world.
abbrev served :
    Run (Server PersistentState × Option PbAppendEntriesResponse × Option Error)
    → Server PersistentState
    → Server PersistentState × Option PbAppendEntriesResponse × Option Error
served (ret result) w = carried (λ e. e) result
served panic w = (w, none, some (message "unavailable"))

instance abbrev wire : RaftClient String (Server PersistentState)
wire = record {
  call_request_vote = λ conn req w. carried (λ e. e) (serve_request_vote req w);
  call_pre_vote = λ conn req w. let (r, e) = serve_pre_vote req w in carried (λ e. e) (w, r, e);
  call_append_entries = λ conn req w. served (serve_append_entries req w) w;
}

wire-Delivers :
    Delivers {C = String} (λ e. e) (λ (w : Server PersistentState). w) (λ s w. s) "host:9002"
wire-Delivers = record {
  delivers_vote = λ req w. refl;
  delivers_pre_vote = λ req w. refl;
  delivers_append = λ req w s r e done. rw done refl;
}

abbrev server_b : Server PersistentState
server_b = new_server_with_append_reset (new_node "b") (some false)

abbrev client_a : PeerClient String
client_a = record { clients = ("b", "host:9002") ∷ [] }

abbrev vote_request : RequestVoteRequest
vote_request = record { term = 1; candidate_id = "a"; last_log_index = 0; last_log_term = 0 }

abbrev pre_vote_request : PreVoteRequest
pre_vote_request = record { term = 1; candidate_id = "a"; last_log_index = 0; last_log_term = 0 }

abbrev append_request : AppendEntriesRequest
append_request = record {
  term = 1;
  leader_id = "a";
  prev_log_index = 0;
  prev_log_term = 0;
  entries = entry 1 1 ∷ [];
  leader_commit = 1;
}

abbrev node_after : RaftNode PersistentState
node_after = record (new_node "b") {
  current_term = 1;
  leader_id = "a";
  log = entry 1 1 ∷ [];
  commit_index = 1;
  commit_ready = true;
}

append_handled :
    handle_append_entries append_request (new_node "b")
    ≡ ret (node_after, record { term = 1; success = true }, none)
unfolding handle_append_entries append_entries_to_log append_loop follow_leader follow_commit
    persist_if persist is_member contains_peer last_log_index first_log_index contains_log_index
    entry_at log_term_at last_entry? normalize_entries
append_handled = refl

send-handle_example :
    (send_request_vote "b" vote_request client_a server_b ≡ (
      let (n', resp', err') = request_vote vote_request server_b.node in
      seen (λ e. e) no_vote (record server_b { node = n' }, resp', err')))
    × (send_pre_vote "b" pre_vote_request client_a server_b ≡ (
        let (resp', err') = pre_vote pre_vote_request server_b.node in
        seen (λ e. e) no_pre_vote (server_b, resp', err')))
    × (send_append_entries "b" append_request client_a server_b ≡ (
      new_server_with_append_reset node_after (some true),
      record { term = 1; success = true },
      none,
    ))
unfolding lookup notify_append_reset
send-handle_example =
    send-handle (λ e. e) (λ w. w) (λ s w. s) client_a "b" "host:9002" server_b vote_request
      pre_vote_request append_request node_after (record { term = 1; success = true }) none refl
      wire-Delivers append_handled
