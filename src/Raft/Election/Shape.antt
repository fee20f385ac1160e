-- ===== src/Raft/Election/Shape.antt =====
-- An election does not panic, and leaves a well-formed node.
use rv_key_value.Base.{
  Option-both, arith, Returns-option, ℕ, suc, ◌+◌, Bool, true, false, Option, none, some, List, [],
  ◌∷◌, not, leb, ◌&&◌, if◌then◌else◌, length, take, All, All-take, ret, Returns, Returns-map,
  Returns-if, if-both,
}
use rv_key_value.Raft.Types.{StableStore, Error, RequestVoteResponse, PreVoteResponse}
use rv_key_value.Raft.Node.{RaftNode, majority, become_candidate}
use rv_key_value.Raft.Node.Persist.{persist-keeps}
use rv_key_value.Raft.Log.WellFormed.{IsWellFormed}
use rv_key_value.Raft.Vote.{step_down_for_higher_term}
use rv_key_value.Raft.Steps.Keep.{step_down-Follows}
use rv_key_value.Raft.Election.{
  Effect, Awaited, context_done, failed, answered, Interference, gather_pre_votes,
  pre_vote_election, request_votes, start_election,
}
use rv_key_value.Raft.Election.Winning.{IsSound, IsSoundAnswer, request_votes-Elected}

module _ {D : Type 0} where
  -- What other goroutines do between the critical sections of an election keeps a node well-formed.
  pub record IsSoundElection (env : Interference D) (pre_answers : List (Awaited D PreVoteResponse))
      (answers : List (Awaited D RequestVoteResponse)) : Type 0 where
    pub before_pre_vote : IsSound env.before_pre_vote
    pub before_snapshot : IsSound env.before_snapshot
    pub before_candidate : IsSound env.before_candidate
    pub before_requests : IsSound env.before_requests
    pub before_promotion : IsSound env.before_promotion
    pub pre : All IsSoundAnswer pre_answers
    pub votes : All IsSoundAnswer answers

module _ {D : Type 0} ⦃stable : StableStore D⦄ where
  gather_pre_votes-IsWellFormed :
      (needed votes : ℕ) (answers : List (Awaited D PreVoteResponse)) (n : RaftNode D)
      → IsWellFormed n
      → All IsSoundAnswer answers
      → IsWellFormed (gather_pre_votes needed votes answers n).0
  unfolding gather_pre_votes
  gather_pre_votes-IsWellFormed needed votes [] n w s = w
  gather_pre_votes-IsWellFormed needed votes (context_done err ∷ rest) n w s = w
  gather_pre_votes-IsWellFormed needed votes (failed ∷ rest) n w s =
      gather_pre_votes-IsWellFormed needed votes rest n w s.1
  gather_pre_votes-IsWellFormed needed votes (answered resp e1 e2 e3 ∷ rest) n w ((s1, s2, s3), s) =
      let P = λ (r : RaftNode D × Bool × Option Error). IsWellFormed r.0 in
      let w1 = (step_down-Follows (e1 n) (s1 n w) resp.term).shape in
      let n1 = (step_down_for_higher_term resp.term (e1 n)).0 in
      let votes' = (if resp.vote_granted then suc votes else votes) in
      Option-both P (step_down_for_higher_term resp.term (e1 n)).2 (λ e. (n1, false, some e)) _
        (λ e. w1)
        (if-both P (step_down_for_higher_term resp.term (e1 n)).1 (n1, false, none) _ w1
          (if-both P (resp.vote_granted && leb needed votes') (n1, true, none) _ w1
            (gather_pre_votes-IsWellFormed needed votes' rest n1 w1 s)))

  pre_vote_election-IsWellFormed :
      (has_client : Bool) (before_snapshot : Effect D) (answers : List (Awaited D PreVoteResponse))
      (n : RaftNode D)
      → IsWellFormed n
      → IsSound before_snapshot
      → All IsSoundAnswer answers
      → IsWellFormed (pre_vote_election has_client before_snapshot answers n).0
  unfolding pre_vote_election
  pre_vote_election-IsWellFormed has_client before_snapshot answers n w s all =
      let P = λ (r : RaftNode D × Bool × Option Error). IsWellFormed r.0 in
      let n1 = before_snapshot n in
      if-both P (not has_client) _ _ w (
        if-both P (not n.self_member) _ _ w (
          if-both P (leb (majority (length n1.peers + 1)) 1) _ _ (s n w) (
            gather_pre_votes-IsWellFormed (majority (length n1.peers + 1)) 1
              (take (length n1.peers) answers) n1 (s n w)
              (All-take IsSoundAnswer (length n1.peers) answers all))))

  become_candidate-IsWellFormed :
      (n : RaftNode D) → IsWellFormed n → IsWellFormed (become_candidate n).0
  unfolding become_candidate
  become_candidate-IsWellFormed n w = persist-keeps IsWellFormed _ (λ d. ground (arith, w))

  request_votes-Returns :
      (env : Interference D) (answers : List (Awaited D RequestVoteResponse))
      (r : RaftNode D × Option Error)
      → IsWellFormed r.0
      → IsSound env.before_requests
      → IsSound env.before_promotion
      → All IsSoundAnswer answers
      → Returns (request_votes env answers r) (λ r. IsWellFormed r.0)
  unfolding request_votes
  request_votes-Returns env answers (n, some err) w a b s = w
  request_votes-Returns env answers (n, none) w a b s =
      Returns-map (request_votes env answers (n, none))
        (request_votes-Elected env answers n w a b s) (λ r e. e.0)

  pub start_election-Returns :
      (has_client : Bool) (env : Interference D) (pre_answers : List (Awaited D PreVoteResponse))
      (answers : List (Awaited D RequestVoteResponse)) (n : RaftNode D)
      → IsWellFormed n
      → IsSoundElection env pre_answers answers
      → Returns (start_election has_client env pre_answers answers n) (λ r. IsWellFormed r.0)
  unfolding start_election
  start_election-Returns has_client env pre_answers answers n w s =
      let P = λ (r : RaftNode D × Bool × Option Error). IsWellFormed r.0 in
      let n0 = env.before_pre_vote n in
      let pre = pre_vote_election has_client env.before_snapshot pre_answers n0 in
      let w1 =
        pre_vote_election-IsWellFormed has_client env.before_snapshot pre_answers n0
          (s.before_pre_vote n w) s.before_snapshot s.pre in
      Returns-if P (not has_client) _ _ w (
        Returns-if P (not n.self_member) _ _ w (
          Returns-option P pre.2 _ (λ e. ret (pre.0, false, some e))
            (Returns-if P (not pre.1) _ _ w1 (
              request_votes-Returns env answers _
                (become_candidate-IsWellFormed _ (s.before_candidate pre.0 w1)) s.before_requests
                s.before_promotion s.votes))
            (λ e. w1)))
