-- ===== src/Transport/Convert.antt =====
-- raftgrpc/convert.go: messages to and from the types of the package raft.
use rv_key_value.Base.{false, Option, some, List, [], ◌∷◌}
use rv_key_value.Raft.Types.{
  LogEntry, RequestVoteRequest, RequestVoteResponse, PreVoteRequest, PreVoteResponse,
  AppendEntriesRequest, AppendEntriesResponse,
}
use rv_key_value.Transport.Messages.{
  PbLogEntry, PbRequestVoteRequest, PbRequestVoteResponse, PbPreVoteRequest, PbPreVoteResponse,
  PbAppendEntriesRequest, PbAppendEntriesResponse, getter,
}

unfoldable pub to_proto_request_vote_request : RequestVoteRequest → Option PbRequestVoteRequest
to_proto_request_vote_request req = some (record {
  term = req.term;
  candidate_id = req.candidate_id;
  last_log_index = req.last_log_index;
  last_log_term = req.last_log_term;
})

unfoldable pub from_proto_request_vote_request : Option PbRequestVoteRequest → RequestVoteRequest
from_proto_request_vote_request req = record {
  term = getter 0 (λ m. m.term) req;
  candidate_id = getter "" (λ m. m.candidate_id) req;
  last_log_index = getter 0 (λ m. m.last_log_index) req;
  last_log_term = getter 0 (λ m. m.last_log_term) req;
}

unfoldable pub to_proto_request_vote_response : RequestVoteResponse → Option PbRequestVoteResponse
to_proto_request_vote_response resp =
    some (record { term = resp.term; vote_granted = resp.vote_granted })

unfoldable pub from_proto_request_vote_response : Option PbRequestVoteResponse → RequestVoteResponse
from_proto_request_vote_response resp = record {
  term = getter 0 (λ m. m.term) resp;
  vote_granted = getter false (λ m. m.vote_granted) resp;
}

unfoldable pub to_proto_pre_vote_request : PreVoteRequest → Option PbPreVoteRequest
to_proto_pre_vote_request req = some (record {
  term = req.term;
  candidate_id = req.candidate_id;
  last_log_index = req.last_log_index;
  last_log_term = req.last_log_term;
})

unfoldable pub from_proto_pre_vote_request : Option PbPreVoteRequest → PreVoteRequest
from_proto_pre_vote_request req = record {
  term = getter 0 (λ m. m.term) req;
  candidate_id = getter "" (λ m. m.candidate_id) req;
  last_log_index = getter 0 (λ m. m.last_log_index) req;
  last_log_term = getter 0 (λ m. m.last_log_term) req;
}

unfoldable pub to_proto_pre_vote_response : PreVoteResponse → Option PbPreVoteResponse
to_proto_pre_vote_response resp =
    some (record { term = resp.term; vote_granted = resp.vote_granted })

unfoldable pub from_proto_pre_vote_response : Option PbPreVoteResponse → PreVoteResponse
from_proto_pre_vote_response resp = record {
  term = getter 0 (λ m. m.term) resp;
  vote_granted = getter false (λ m. m.vote_granted) resp;
}

unfoldable pub to_proto_log_entries : List LogEntry → List (Option PbLogEntry)
to_proto_log_entries [] = []
to_proto_log_entries (entry ∷ entries) =
    some (record { term = entry.term; index = entry.index; command = entry.command })
    ∷ to_proto_log_entries entries

unfoldable pub from_proto_log_entries : List (Option PbLogEntry) → List LogEntry
from_proto_log_entries [] = []
from_proto_log_entries (entry ∷ entries) =
    record {
      term = getter 0 (λ m. m.term) entry;
      index = getter 0 (λ m. m.index) entry;
      command = getter [] (λ m. m.command) entry;
    }
    ∷ from_proto_log_entries entries

unfoldable pub to_proto_append_entries_request :
    AppendEntriesRequest → Option PbAppendEntriesRequest
unfolding to_proto_log_entries
to_proto_append_entries_request req = some (record {
  term = req.term;
  leader_id = req.leader_id;
  prev_log_index = req.prev_log_index;
  prev_log_term = req.prev_log_term;
  entries = to_proto_log_entries req.entries;
  leader_commit = req.leader_commit;
})

unfoldable pub from_proto_append_entries_request :
    Option PbAppendEntriesRequest → AppendEntriesRequest
unfolding from_proto_log_entries
from_proto_append_entries_request req = record {
  term = getter 0 (λ m. m.term) req;
  leader_id = getter "" (λ m. m.leader_id) req;
  prev_log_index = getter 0 (λ m. m.prev_log_index) req;
  prev_log_term = getter 0 (λ m. m.prev_log_term) req;
  entries = from_proto_log_entries (getter [] (λ m. m.entries) req);
  leader_commit = getter 0 (λ m. m.leader_commit) req;
}

unfoldable pub to_proto_append_entries_response :
    AppendEntriesResponse → Option PbAppendEntriesResponse
to_proto_append_entries_response resp = some (record { term = resp.term; success = resp.success })

unfoldable pub from_proto_append_entries_response :
    Option PbAppendEntriesResponse → AppendEntriesResponse
from_proto_append_entries_response resp = record {
  term = getter 0 (λ m. m.term) resp;
  success = getter false (λ m. m.success) resp;
}
