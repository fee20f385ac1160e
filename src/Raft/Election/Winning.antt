-- ===== src/Raft/Election/Winning.antt =====
-- Who wins an election, and what a node that cannot reach its peers does.
use rv_key_value.Base.{
  All-take, zero, ℕ, suc, ◌+◌, ◌≤◌, ◌<◌, Bool, true, false, Option, none, some, List, [], ◌∷◌, ◌≡◌,
  inl, inr, refl, sym, ap, ◌∙◌, subst, arith, not, leb, ◌&&◌, if◌then◌else◌, length, take, All, Run,
  ret, Returns, Returns-map, Returns-if, Bool-cases,
}
use rv_key_value.Raft.Types.{leader, StableStore, Error, RequestVoteResponse, PreVoteResponse}
use rv_key_value.Raft.Node.{RaftNode, majority}
use rv_key_value.Raft.Log.WellFormed.{IsWellFormed}
use rv_key_value.Raft.Vote.{step_down_for_higher_term}
use rv_key_value.Raft.Steps.Keep.{promote_candidate_lem, step_down-Follows}
use rv_key_value.Raft.Election.{
  Effect, Awaited, context_done, failed, answered, Interference, is_candidate_for_term,
  promote_candidate, gather_pre_votes, pre_vote_election, gather_votes, request_votes,
  start_election,
}

-- How many answers grant the vote.
unfoldable pub granted : {D : Type 0} → List (Awaited D RequestVoteResponse) → ℕ
granted [] = 0
granted (answered resp _ _ _ ∷ rest) =
    let more = granted rest in if resp.vote_granted then suc more else more
granted (_ ∷ rest) = granted rest

granted-take :
    {D : Type 0} (k : ℕ) (xs : List (Awaited D RequestVoteResponse))
    → granted (take k xs) ≤ granted xs
unfolding granted
granted-take zero xs = omega arith
granted-take (suc k) [] = omega arith
granted-take (suc k) (answered resp e1 e2 e3 ∷ xs) = ground (arith, granted-take k xs)
granted-take (suc k) (context_done err ∷ xs) = granted-take k xs
granted-take (suc k) (failed ∷ xs) = granted-take k xs

module _ {D : Type 0} where
  -- What other goroutines do leaves a well-formed node.
  abbrev pub IsSound : Effect D → Type 0
  IsSound e = (n : RaftNode D) → IsWellFormed n → IsWellFormed (e n)

  abbrev pub IsSoundAnswer : {R : Type 0} → Awaited D R → Type 0
  IsSoundAnswer (answered _ e1 e2 e3) = IsSound e1 × IsSound e2 × IsSound e3
  IsSoundAnswer _ = Unit

module _ {D : Type 0} ⦃stable : StableStore D⦄ (term needed : ℕ) where
  -- What a candidate that counts votes comes to.
  abbrev pub Elected : ℕ → RaftNode D × Bool × Option Error → Type 0
  Elected available r =
      IsWellFormed r.0
      × (r.1 ≡ true → (needed ≤ available) × (r.0.state ≡ leader) × (r.0.current_term ≡ term))

  promote_Elected :
      (n : RaftNode D) (available : ℕ)
      → IsWellFormed n
      → needed ≤ available
      → Returns (promote_candidate term n) (Elected available)
  promote_Elected n available w enough =
      Returns-map (promote_candidate term n) (promote_candidate_lem n w term) (λ r p. elim p [
        | inl (e, f) ↦ (subst IsWellFormed (sym e) w, λ t. cc)
        | inr (same, t, (shape, s)) ↦ (shape, λ _. (enough, s.role, s.term ∙ same))
      ])

  -- What is left to do when an answer came in.
  answer_Elected :
      (votes : ℕ) (grants : Bool) (more : ℕ) (n1 n2 n3 : RaftNode D) (err : Option Error)
      (stepped_down : Bool) (later : Run (RaftNode D × Bool × Option Error))
      → IsWellFormed n1
      → IsWellFormed n2
      → IsWellFormed n3
      → Returns later (Elected ((if grants then suc votes else votes) + more))
      → Returns
          (elim err [
            | some e ↦ ret (n1, false, some e)
            | none ↦
                if stepped_down
                then ret (n1, false, none)
                else if not (is_candidate_for_term term n2)
                then ret (n2, false, none)
                else if grants && leb needed (if grants then suc votes else votes)
                then promote_candidate term n3
                else later
          ])
          (Elected ((if grants then suc votes else votes) + more))
  answer_Elected votes grants more n1 n2 n3 (some e) stepped_down later w1 w2 w3 h = (w1, λ t. cc)
  answer_Elected votes grants more n1 n2 n3 none stepped_down later w1 w2 w3 h =
      let P = Elected ((if grants then suc votes else votes) + more) in
      Returns-if P stepped_down _ _ (w1, λ t. cc)
        (Returns-if P (not (is_candidate_for_term term n2)) _ _ (w2, λ t. cc)
          (elim (Bool-cases (grants && leb needed (if grants then suc votes else votes))) [
            | inl wins ↦ rw wins (
                promote_Elected n3 ((if grants then suc votes else votes) + more) w3 (ground arith))
            | inr goes_on ↦ rw goes_on h
          ]))

  -- What the loop of StartElection comes to.
  gather_votes-Elected :
      (votes : ℕ) (answers : List (Awaited D RequestVoteResponse)) (n : RaftNode D)
      → IsWellFormed n
      → All IsSoundAnswer answers
      → Returns (gather_votes term needed votes answers n) (Elected (votes + granted answers))
  unfolding gather_votes granted
  gather_votes-Elected votes [] n w sound = (w, λ t. cc)
  gather_votes-Elected votes (context_done err ∷ rest) n w sound = (w, λ t. cc)
  gather_votes-Elected votes (failed ∷ rest) n w sound = gather_votes-Elected votes rest n w sound.1
  gather_votes-Elected votes (answered resp e1 e2 e3 ∷ rest) n w ((s1, s2, s3), sound) =
      let w1 = (step_down-Follows (e1 n) (s1 n w) resp.term).shape in
      let n1 = (step_down_for_higher_term resp.term (e1 n)).0 in
      let votes' = (if resp.vote_granted then suc votes else votes) in
      let later = gather_votes-Elected votes' rest (e2 n1) (s2 n1 w1) sound in
      let sum : votes' + granted rest ≡ votes + granted (answered resp e1 e2 e3 ∷ rest) =
        ground arith in
      subst
        (λ (a : ℕ).
          Returns (gather_votes term needed votes (answered resp e1 e2 e3 ∷ rest) n) (Elected a))
        sum
        (answer_Elected votes resp.vote_granted (granted rest) n1 (e2 n1) (e3 (e2 n1))
          (step_down_for_higher_term resp.term (e1 n)).2
          (step_down_for_higher_term resp.term (e1 n)).1
          (gather_votes term needed votes' rest (e2 n1)) w1 (s2 n1 w1) (s3 (e2 n1) (s2 n1 w1))
          later)

if_false : {A : Type 0} {b : Bool} (x y : A) → b ≡ false → (if b then x else y) ≡ y
if_false {b = true} x y e = cc
if_false {b = false} x y e = refl

many_needed : (peers : ℕ) → 0 < peers → leb (majority (peers + 1)) 1 ≡ false
unfolding majority
many_needed peers h = ground arith

module _ {D : Type 0} ⦃stable : StableStore D⦄ where
  lost_pre_votes :
      (needed votes : ℕ) (answers : List (Awaited D PreVoteResponse)) (n : RaftNode D)
      → All (λ a. a ≡ failed) answers
      → gather_pre_votes needed votes answers n ≡ (n, false, none)
  unfolding gather_pre_votes
  lost_pre_votes needed votes [] n h = refl
  lost_pre_votes needed votes (failed ∷ rest) n (e, h) = lost_pre_votes needed votes rest n h
  lost_pre_votes needed votes (context_done err ∷ rest) n (e, h) = cc
  lost_pre_votes needed votes (answered resp e1 e2 e3 ∷ rest) n (e, h) = cc

  pre_votes_lost :
      (before_snapshot : Effect D) (answers : List (Awaited D PreVoteResponse)) (n : RaftNode D)
      → All (λ a. a ≡ failed) answers
      → n.self_member ≡ true
      → 0 < length (before_snapshot n).peers
      → pre_vote_election true before_snapshot answers n ≡ (before_snapshot n, false, none)
  unfolding pre_vote_election
  pre_votes_lost before_snapshot answers n lost member peers =
      let m = before_snapshot n in
      rw
        (
          many_needed (length m.peers) peers,
          lost_pre_votes (majority (length m.peers + 1)) 1 (take (length m.peers) answers) m
              (All-take (λ a. a ≡ failed) (length m.peers) answers lost),
        )
        (if_false _ _ (ap not member))

module _ {D : Type 0} ⦃stable : StableStore D⦄ (env : Interference D) where
  -- After a node became a candidate, StartElection does not panic, if the node is well-formed and what
  -- other goroutines do keeps it so. It returns true only if the node's own vote and the answers that
  -- grant one are a majority of the node and its peers, and then the node leads in the term in which
  -- it asked for the votes.
  pub request_votes-Elected :
      (answers : List (Awaited D RequestVoteResponse)) (n : RaftNode D)
      → IsWellFormed n
      → IsSound env.before_requests
      → IsSound env.before_promotion
      → All IsSoundAnswer answers
      → let m = env.before_requests n in
        Returns
          (request_votes env answers (n, none))
          (Elected m.current_term (majority (length m.peers + 1)) (1 + granted answers))
  unfolding request_votes
  request_votes-Elected answers n w sound prom all =
      let m = env.before_requests n in
      let needed = majority (length m.peers + 1) in
      let answers' = take (length m.peers) answers in
      elim (Bool-cases (leb needed 1)) [
        | inl alone ↦ rw alone (
            promote_Elected m.current_term needed (env.before_promotion m) (1 + granted answers)
              (prom m (sound n w)) (ground arith))
        | inr asks ↦ rw asks (
            Returns-map (gather_votes m.current_term needed 1 answers' m)
              (gather_votes-Elected m.current_term needed 1 answers' m (sound n w)
                (All-take IsSoundAnswer (length m.peers) answers all))
              (λ r (shape, won). (
                shape,
                λ t.
                    let (e, lead, term) = won t in
                    (omega (arith, granted-take (length m.peers) answers), lead, term),
              )))
      ]

  -- A node that has peers and reaches none of them does not stand for election: every pre-vote fails,
  -- and StartElection leaves the node as it was, in the same term, whatever other goroutines did to it
  -- in between. The node is a member at the start and when the pre-votes begin.
  pub isolated_node_waits :
      (pre_answers : List (Awaited D PreVoteResponse))
      (answers : List (Awaited D RequestVoteResponse)) (n : RaftNode D)
      → All (λ a. a ≡ failed) pre_answers
      → n.self_member ≡ true
      → (env.before_pre_vote n).self_member ≡ true
      → 0 < length (env.before_snapshot (env.before_pre_vote n)).peers
      → start_election true env pre_answers answers n
        ≡ ret (env.before_snapshot (env.before_pre_vote n), false, none)
  unfolding start_election
  isolated_node_waits pre_answers answers n lost member still_member peers =
      let e =
        pre_votes_lost env.before_snapshot pre_answers (env.before_pre_vote n) lost still_member
          peers in
      rw (e, e) (if_false _ _ (ap not member))
