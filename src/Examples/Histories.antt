-- ===== src/Examples/Histories.antt =====
-- A follower takes entries, votes and stands for election.
use rv_key_value.Base.{true, ◌≡◌, ◌↔◌, refl, arith, ret, Returns}
use rv_key_value.Raft.Types.{PersistentState, RequestVoteRequest}
use rv_key_value.Raft.Node.{RaftNode, become_candidate}
use rv_key_value.Raft.Log.WellFormed.{IsWellFormed}
use rv_key_value.Raft.Keeps.{KeepsVote}
use rv_key_value.Raft.Vote.{request_vote}
use rv_key_value.Raft.Vote.Granting.{MayVote, request_vote_granted_iff, request_vote_lem}
use rv_key_value.Raft.Steps.{take_entries, stand, success, perform}
use rv_key_value.Raft.Steps.Reach.{History, here, next, history_lem, Moves, perform-Moves}
use rv_key_value.Base.{[], ◌∷◌}
use rv_key_value.Raft.Types.{is_log_at_least_up_to_date}
use rv_key_value.Raft.Node.{is_member, contains_peer}
use rv_key_value.Raft.Log.{last_log_index, last_log_term, last_entry?, last_from}
use rv_key_value.Raft.Vote.{pre_vote}
use rv_key_value.Raft.Election as Election
use rv_key_value.Raft.Election.{pre_vote_request}
use rv_key_value.Raft.Election.Asking.{request_vote-pre_vote}
use rv_key_value.Examples.{new_node, entry}
use rv_key_value.Examples.{disk_store, no_membership}
use rv_key_value.Examples.Logs.{
  follower_b, follower_b-IsWellFormed, request, request-IsValid, follower_after, accepted_run,
  leader_a, leader_a-IsWellFormed,
}

-- The log of the candidate "c" is longer than the follower's.
abbrev vote_request : RequestVoteRequest
vote_request = record { term = 3; candidate_id = "c"; last_log_index = 4; last_log_term = 2 }

request_vote_granted_iff_example :
    ((request_vote vote_request follower_after).1.vote_granted ≡ true)
    ↔ MayVote vote_request follower_after
request_vote_granted_iff_example = request_vote_granted_iff vote_request follower_after

request_vote_lem_example :
    let (m, resp, err) = request_vote vote_request follower_after in
    KeepsVote follower_after m
    × (resp.term ≡ m.current_term)
    × (resp.vote_granted ≡ true → (m.current_term ≡ 3) × (m.voted_for ≡ "c"))
request_vote_lem_example = request_vote_lem vote_request follower_after

perform-Moves_example : Returns (perform (success "c" 2) leader_a) (Moves leader_a)
perform-Moves_example = perform-Moves (success "c" 2) leader_a leader_a-IsWellFormed tt

takes : perform (take_entries request) follower_b ≡ ret follower_after
unfolding perform
takes = rw accepted_run refl

abbrev stood : RaftNode PersistentState
stood = (become_candidate follower_after).0

stands : perform stand follower_after ≡ ret stood
unfolding perform
stands = refl

history : History follower_b stood
history = next stand (next (take_entries request) here request-IsValid takes) (omega arith) stands

history_lem_example : IsWellFormed stood × KeepsVote follower_b stood
history_lem_example = history_lem follower_b-IsWellFormed history

-- A node of the same term whose log is longer.
abbrev asker : RaftNode PersistentState
asker = record (new_node "c") {
  current_term = 2;
  log = entry 1 1 ∷ entry 2 2 ∷ entry 2 3 ∷ entry 2 4 ∷ [];
}

asked : (pre_vote (pre_vote_request asker) follower_after).0.vote_granted ≡ true
unfolding pre_vote pre_vote_request is_member contains_peer last_log_index last_log_term last_entry?
    last_from is_log_at_least_up_to_date
asked = refl

request_vote-pre_vote_example :
    (request_vote (Election.vote_request (become_candidate asker).0) follower_after).1.vote_granted
    ≡ true
request_vote-pre_vote_example =
    request_vote-pre_vote asker follower_after (omega arith) (omega arith) asked
