-- ===== src/Raft/Election.antt =====
-- raft/election.go: a node gathers pre-votes, and then votes. The answers of the peers arrive in any
-- order, and between two critical sections other goroutines may act on the node: an `Effect` is what
-- they did to it.
pub mod Winning
pub mod Asking
pub mod Shape
use rv_key_value.Base.{
  ℕ, suc, ◌+◌, Bool, true, false, Option, none, some, List, [], ◌∷◌, not, leb, ◌==◌, ◌&&◌, ◌||◌,
  if◌then◌else◌, length, take, u64, Run, ret, ◌>>=◌,
}
use rv_key_value.Raft.Types.{
  leader, StableStore, Error, message, RequestVoteRequest, RequestVoteResponse, PreVoteRequest,
  PreVoteResponse,
}
use rv_key_value.Raft.Node.{RaftNode, persist, is_candidate, majority, become_candidate}
use rv_key_value.Raft.Log.{last_log_index, last_log_term}
use rv_key_value.Raft.Vote.{step_down_for_higher_term}
use rv_key_value.Raft.Commit.{init_leader_progress}

abbrev pub Effect : Type 0 → Type 0
Effect D = RaftNode D → RaftNode D

-- What a node that gathers votes waits for: the end of its context, or the answer of a peer, which
-- is `none` where the call failed. The effects come before the critical sections that follow.
pub data Awaited (D R : Type 0) : Type 0 where
  context_done : Error → Awaited D R
  failed : Awaited D R
  answered : R → Effect D → Effect D → Effect D → Awaited D R

-- The effects between the critical sections of StartElection before it waits.
pub record Interference (D : Type 0) : Type 0 where
  pub before_pre_vote : Effect D
  pub before_snapshot : Effect D
  pub before_candidate : Effect D
  pub before_requests : Effect D
  pub before_promotion : Effect D

module _ {D : Type 0} where
  -- isCandidateForTerm
  unfoldable pub is_candidate_for_term : ℕ → RaftNode D → Bool
  is_candidate_for_term term n = is_candidate n.state && n.current_term == term

  -- promoteCandidate
  unfoldable pub promote_candidate :
      ⦃stable : StableStore D⦄ → ℕ → RaftNode D → Run (RaftNode D × Bool × Option Error)
  promote_candidate ⦃stable⦄ term n =
      if not (is_candidate n.state) || not (n.current_term == term) || not n.self_member
      then ret (n, false, none)
      else (do
        n1 ← init_leader_progress (record n { state = leader; leader_id = n.id })
        let (n2, err) = persist n1
        ret (n2, true, err))

  -- `PreVoteRequest` and `RequestVoteRequest` of a node, from electionSnapshot.
  unfoldable pub pre_vote_request : RaftNode D → PreVoteRequest
  pre_vote_request n = record {
    term = u64 (n.current_term + 1);
    candidate_id = n.id;
    last_log_index = last_log_index n;
    last_log_term = last_log_term n;
  }

  unfoldable pub vote_request : RaftNode D → RequestVoteRequest
  vote_request n = record {
    term = n.current_term;
    candidate_id = n.id;
    last_log_index = last_log_index n;
    last_log_term = last_log_term n;
  }

  -- The loop of PreVoteElection. `needed` is the majority, and a list that ends early stands for
  -- calls that failed.
  unfoldable pub gather_pre_votes :
      ⦃stable : StableStore D⦄
      → ℕ
      → ℕ
      → List (Awaited D PreVoteResponse)
      → RaftNode D
      → RaftNode D × Bool × Option Error
  gather_pre_votes ⦃stable⦄ needed votes [] n = (n, false, none)
  gather_pre_votes ⦃stable⦄ needed votes (context_done err ∷ rest) n = (n, false, some err)
  gather_pre_votes ⦃stable⦄ needed votes (failed ∷ rest) n = gather_pre_votes needed votes rest n
  gather_pre_votes ⦃stable⦄ needed votes (answered resp e1 e2 e3 ∷ rest) n =
      let (n1, stepped_down, err) = step_down_for_higher_term resp.term (e1 n) in
      let votes' = (if resp.vote_granted then suc votes else votes) in
      let later = gather_pre_votes needed votes' rest n1 in
      elim err [
        | some e ↦ (n1, false, some e)
        | none ↦
            if stepped_down
            then (n1, false, none)
            else if resp.vote_granted && leb needed votes'
            then (n1, true, none)
            else later
      ]

  -- PreVoteElection; `has_client` is false where the client is nil.
  unfoldable pub pre_vote_election :
      ⦃stable : StableStore D⦄
      → Bool
      → Effect D
      → List (Awaited D PreVoteResponse)
      → RaftNode D
      → RaftNode D × Bool × Option Error
  unfolding gather_pre_votes
  pre_vote_election ⦃stable⦄ has_client before_snapshot answers n =
      if not has_client
      then (n, false, some (message "vote client is nil"))
      else if not n.self_member
      then (n, false, none)
      else (let n1 = before_snapshot n in
          let needed = majority (length n1.peers + 1) in
          if leb needed 1
          then (n1, true, none)
          else gather_pre_votes needed 1 (take (length n1.peers) answers) n1)

  -- The loop of StartElection.
  unfoldable pub gather_votes :
      ⦃stable : StableStore D⦄
      → ℕ
      → ℕ
      → ℕ
      → List (Awaited D RequestVoteResponse)
      → RaftNode D
      → Run (RaftNode D × Bool × Option Error)
  gather_votes ⦃stable⦄ term needed votes [] n = ret (n, false, none)
  gather_votes ⦃stable⦄ term needed votes (context_done err ∷ rest) n = ret (n, false, some err)
  gather_votes ⦃stable⦄ term needed votes (failed ∷ rest) n = gather_votes term needed votes rest n
  gather_votes ⦃stable⦄ term needed votes (answered resp e1 e2 e3 ∷ rest) n =
      let (n1, stepped_down, err) = step_down_for_higher_term resp.term (e1 n) in
      let n2 = e2 n1 in
      let votes' = (if resp.vote_granted then suc votes else votes) in
      let later = gather_votes term needed votes' rest n2 in
      elim err [
        | some e ↦ ret (n1, false, some e)
        | none ↦
            if stepped_down
            then ret (n1, false, none)
            else if not (is_candidate_for_term term n2)
            then ret (n2, false, none)
            else if resp.vote_granted && leb needed votes'
            then promote_candidate term (e3 n2)
            else later
      ]

  unfoldable pub request_votes :
      ⦃stable : StableStore D⦄
      → Interference D
      → List (Awaited D RequestVoteResponse)
      → RaftNode D × Option Error
      → Run (RaftNode D × Bool × Option Error)
  request_votes ⦃stable⦄ env answers (n, some err) = ret (n, false, some err)
  request_votes ⦃stable⦄ env answers (n, none) =
      let n1 = env.before_requests n in
      let needed = majority (length n1.peers + 1) in
      if leb needed 1
      then promote_candidate n1.current_term (env.before_promotion n1)
      else gather_votes n1.current_term needed 1 (take (length n1.peers) answers) n1

  -- StartElection
  unfoldable pub start_election :
      ⦃stable : StableStore D⦄
      → Bool
      → Interference D
      → List (Awaited D PreVoteResponse)
      → List (Awaited D RequestVoteResponse)
      → RaftNode D
      → Run (RaftNode D × Bool × Option Error)
  unfolding request_votes gather_votes
  start_election ⦃stable⦄ has_client env pre_answers answers n =
      if not has_client
      then ret (n, false, some (message "vote client is nil"))
      else if not n.self_member
      then ret (n, false, none)
      else (let (n1, won, err) =
            pre_vote_election has_client env.before_snapshot pre_answers (env.before_pre_vote n) in
          elim err [
            | some e ↦ ret (n1, false, some e)
            | none ↦
                if not won
                then ret (n1, false, none)
                else request_votes env answers (become_candidate (env.before_candidate n1))
          ])
