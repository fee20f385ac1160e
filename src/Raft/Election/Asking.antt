-- ===== src/Raft/Election/Asking.antt =====
-- What a pre-vote promises: the vote itself, as long as nothing changes.
use rv_key_value.Base.{◌+◌, ◌≤◌, ◌<◌, ◌≡◌, refl, true, arith, inl, u64, u64_mod}
use rv_key_value.Raft.Types.{StableStore, is_log_at_least_up_to_date}
use rv_key_value.Raft.Node.{RaftNode, is_member, become_candidate}
use rv_key_value.Raft.Node.Persist.{persist_lem}
use rv_key_value.Raft.Log.{last_log_index, last_log_term}
use rv_key_value.Raft.Vote.{request_vote, pre_vote}
use rv_key_value.Raft.Vote.Rules.{is_member_iff, log_end_iff}
use rv_key_value.Raft.Vote.Granting.{request_vote_granted_iff}
use rv_key_value.Raft.Election.{pre_vote_request, vote_request}

module _ {D : Type 0} ⦃stable : StableStore D⦄ (c n : RaftNode D) where
  -- The request that StartElection sends for a node that became a candidate.
  vote_request_lem : vote_request (become_candidate c).0 ≡ record {
    term = u64 (c.current_term + 1);
    candidate_id = c.id;
    last_log_index = last_log_index c;
    last_log_term = last_log_term c;
  }
  unfolding vote_request become_candidate last_log_index last_log_term
  vote_request_lem = rw (persist_lem _) refl

  -- What a node that grants the pre-vote has tested.
  pre_vote_lem :
      (pre_vote (pre_vote_request c) n).0.vote_granted ≡ true
      → (n.self_member ≡ true)
        × (is_member n c.id ≡ true)
        × (is_log_at_least_up_to_date
              (last_log_index c)
              (last_log_term c)
              (last_log_index n)
              (last_log_term n)
            ≡ true)
  unfolding pre_vote pre_vote_request
  pre_vote_lem granted = ground (arith, granted)

  -- A node that grants a pre-vote grants the vote, if it has not changed by then and its term is not
  -- above the candidate's: the request that StartElection sends once the candidate has taken its next
  -- term is granted by RequestVote, if the request of PreVoteElection was by PreVote. The candidate's
  -- next term fits 64 bits.
  pub request_vote-pre_vote :
      c.current_term + 1 < u64_mod
      → n.current_term ≤ c.current_term
      → (pre_vote (pre_vote_request c) n).0.vote_granted ≡ true
      → (request_vote (vote_request (become_candidate c).0) n).1.vote_granted ≡ true
  request_vote-pre_vote fits low granted =
      let (self, member, fresh) = pre_vote_lem granted in
      rw vote_request_lem (
        (request_vote_granted_iff _ n).1 (
          omega arith,
          self,
          (is_member_iff n c.id).0 member,
          inl (omega arith),
          (log_end_iff n (last_log_index c) (last_log_term c)).0 fresh,
        ))
