-- ===== src/Raft/Vote.antt =====
-- raft/node.go and raft/election.go: a node answers vote requests, and steps down for a higher term.
pub mod Rules
pub mod Granting
use rv_key_value.Base.{
  ℕ, String, Bool, true, false, Option, none, some, not, ltb, leb, ◌==◌, ◌&&◌, ◌||◌, str_eq,
  if◌then◌else◌,
}
use rv_key_value.Raft.Types.{
  follower, StableStore, Error, RequestVoteRequest, RequestVoteResponse, PreVoteRequest,
  PreVoteResponse, is_log_at_least_up_to_date,
}
use rv_key_value.Raft.Node.{RaftNode, persist, is_member}
use rv_key_value.Raft.Log.{last_log_index, last_log_term}

module _ {D : Type 0} where
  -- The writes of a node that learns of a higher term; a follower of that term knows no leader yet.
  abbrev pub adopt_term : ℕ → RaftNode D → RaftNode D
  adopt_term term n = record n {
    current_term = term;
    voted_for = "";
    leader_id = "";
    next_index = none;
    match_index = none;
    state = follower;
  }

  -- The part of RequestVote behind its guards: a higher term is adopted, and the vote is decided.
  -- It returns whether the vote is granted and whether anything is to be persisted.
  unfoldable pub decide_vote : RequestVoteRequest → RaftNode D → RaftNode D × Bool × Bool
  decide_vote req n =
      let changed = ltb n.current_term req.term in
      let n1 = (if changed then adopt_term req.term n else n) in
      let can_vote = str_eq n1.voted_for "" || str_eq n1.voted_for req.candidate_id in
      let fresh =
        is_log_at_least_up_to_date req.last_log_index req.last_log_term (last_log_index n1)
          (last_log_term n1) in
      if can_vote && fresh
      then (record n1 { voted_for = req.candidate_id }, true, true)
      else (n1, false, changed)

  -- RequestVote
  unfoldable pub request_vote :
      ⦃stable : StableStore D⦄
      → RequestVoteRequest
      → RaftNode D
      → RaftNode D × RequestVoteResponse × Option Error
  unfolding decide_vote
  request_vote ⦃stable⦄ req n =
      let refused : RequestVoteResponse = record { term = n.current_term; vote_granted = false } in
      if ltb req.term n.current_term
      then (n, refused, none)
      else if not n.self_member
      then (n, refused, none)
      else if not (is_member n req.candidate_id)
      then (n, refused, none)
      else (let (n1, granted, changed) = decide_vote req n in
          let resp : RequestVoteResponse = record {
            term = n1.current_term;
            vote_granted = granted;
          } in
          let (n2, err) = persist n1 in if changed then (n2, resp, err) else (n1, resp, none))

  -- PreVote: nothing is written.
  unfoldable pub pre_vote : PreVoteRequest → RaftNode D → PreVoteResponse × Option Error
  pre_vote req n =
      let refused : PreVoteResponse = record { term = n.current_term; vote_granted = false } in
      if ltb req.term n.current_term
      then (refused, none)
      else if not n.self_member
      then (refused, none)
      else if not (is_member n req.candidate_id)
      then (refused, none)
      else (
        record {
          term = n.current_term;
          vote_granted =
              is_log_at_least_up_to_date req.last_log_index req.last_log_term (last_log_index n)
                (last_log_term n);
        },
        none,
      )

  -- stepDownForHigherTerm
  unfoldable pub step_down_for_higher_term :
      ⦃stable : StableStore D⦄ → ℕ → RaftNode D → RaftNode D × Bool × Option Error
  step_down_for_higher_term ⦃stable⦄ term n =
      if leb term n.current_term
      then (n, false, none)
      else (let (n', err) = persist (adopt_term term n) in (n', true, err))
