-- ===== src/Raft/Vote/Granting.antt =====
-- When a node grants its vote, and what it keeps of it.
use rv_key_value.Base.{
  ◌≤◌, ◌<◌, Bool, true, false, ◌≡◌, ◌⊎◌, ◌↔◌, refl, arith, ltb, ◌||◌, ◌&&◌, if◌then◌else◌, str_eq,
  eq_iff,
}
use rv_key_value.Raft.Types.{StableStore, RequestVoteRequest, is_log_at_least_up_to_date}
use rv_key_value.Raft.Node.{RaftNode}
use rv_key_value.Raft.Node.Persist.{current_term-persist, voted_for-persist}
use rv_key_value.Raft.Log.{last_log_index, last_log_term}
use rv_key_value.Raft.Log.WellFormed.{IsWellFormed}
use rv_key_value.Raft.Keeps.{KeepsVote, Follows}
use rv_key_value.Raft.Vote.Rules.{CountsAsMember, IsUpToDate, log_end, is_member_iff, log_end_iff}
use rv_key_value.Raft.Vote.{decide_vote, request_vote}

module _ {D : Type 0} ⦃stable : StableStore D⦄ (req : RequestVoteRequest) (n : RaftNode D) where
  -- Who may have the node's vote, as the rules of Raft state it.
  abbrev pub MayVote : Type 0
  MayVote =
      (n.current_term ≤ req.term)
      × (n.self_member ≡ true)
      × CountsAsMember n req.candidate_id
      × ((n.current_term < req.term) ⊎ (n.voted_for ≡ "") ⊎ (n.voted_for ≡ req.candidate_id))
      × IsUpToDate (req.last_log_index, req.last_log_term) (log_end n)

  decide_vote_lem :
      n.current_term ≤ req.term
      → let (m, granted, changed) = decide_vote req n in
        (m.current_term ≡ req.term)
        × (granted ≡ true → m.voted_for ≡ req.candidate_id)
        × KeepsVote n m
  unfolding decide_vote
  decide_vote_lem h = ground (arith, eq_iff n.voted_for "", eq_iff n.voted_for req.candidate_id)

  abbrev fresh : Bool
  fresh =
      is_log_at_least_up_to_date req.last_log_index req.last_log_term (last_log_index n)
        (last_log_term n)

  if-granted :
      {A : Type 0} (b : Bool) (x y : A × Bool × Bool)
      → x.1 ≡ true
      → y.1 ≡ false
      → (if b then x else y).1 ≡ b
  if-granted true x y p q = p
  if-granted false x y p q = q

  decide_higher : ltb n.current_term req.term ≡ true → (decide_vote req n).1 ≡ fresh
  unfolding decide_vote last_log_index last_log_term
  decide_higher higher = rw (higher, decide_vote) (if-granted _ _ _ refl refl)

  decide_same :
      ltb n.current_term req.term ≡ false
      → (decide_vote req n).1
        ≡ ((str_eq n.voted_for "" || str_eq n.voted_for req.candidate_id) && fresh)
  unfolding decide_vote
  decide_same same = rw (same, decide_vote) (if-granted _ _ _ refl refl)

  decide_vote_granted :
      n.current_term ≤ req.term
      → ((decide_vote req n).1 ≡ true) ↔ (
          ((n.current_term < req.term) ⊎ (n.voted_for ≡ "") ⊎ (n.voted_for ≡ req.candidate_id))
          × (is_log_at_least_up_to_date req.last_log_index req.last_log_term
                (last_log_index n)
                (last_log_term n)
              ≡ true))
  decide_vote_granted h = ground (
    arith,
    eq_iff n.voted_for "",
    eq_iff n.voted_for req.candidate_id,
    decide_higher,
    decide_same,
  )

  -- RequestVote grants the vote exactly when the rules allow it: the request's term is not below the
  -- node's, the node is a member, the candidate is the node itself or one of its peers, or no
  -- membership was configured yet, the node has not voted for another candidate in that term, and the
  -- candidate's log ends with a higher term than the node's, or with the same term and no lower index.
  pub request_vote_granted_iff : ((request_vote req n).1.vote_granted ≡ true) ↔ MayVote
  unfolding request_vote
  request_vote_granted_iff = ground (
    arith,
    decide_vote_granted,
    is_member_iff n req.candidate_id,
    log_end_iff n req.last_log_index req.last_log_term,
  )

  -- Whether RequestVote grants its vote or not, the node's term does not fall, and within a term it
  -- does not change a vote that was cast; the response has the node's new term; and if the vote is
  -- granted, the node is in the request's term and remembers the candidate.
  pub request_vote_lem :
      let (m, resp, err) = request_vote req n in
      KeepsVote n m
      × (resp.term ≡ m.current_term)
      × (resp.vote_granted ≡ true → (m.current_term ≡ req.term) × (m.voted_for ≡ req.candidate_id))
  unfolding request_vote
  request_vote_lem = ground (
    arith,
    decide_vote_lem,
    current_term-persist (decide_vote req n).0,
    voted_for-persist (decide_vote req n).0,
  )

  pub decide_vote-Follows :
      IsWellFormed n → n.current_term ≤ req.term → Follows n (decide_vote req n).0
  unfolding decide_vote
  decide_vote-Follows w h = record {
    shape = ground (arith, w);
    votes = (decide_vote_lem h).2;
    name = ground arith;
    role = ground arith;
  }
