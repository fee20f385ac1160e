-- ===== src/Raft/Cluster.antt =====
-- A cluster of nodes with a fixed membership: each node runs the operations of raft/node.go and
-- raft/election.go in any order, and a vote that was granted may be counted at any later time, or
-- never, whatever the network did to the answer.
pub mod Quorum
pub mod Ballots
pub mod Safety
use rv_key_value.Base.{
  ℕ, suc, ◌+◌, ◌≤◌, String, Bool, true, Option, List, [], ◌∷◌, ◌≡◌, ◌≢◌, ◌⊎◌, Has, count, length,
  if◌then◌else◌, str_eq, Run, ret,
}
use rv_key_value.Raft.Types.{State, StableStore, Error, leader}
use rv_key_value.Raft.Membership.{MembershipJson}
use rv_key_value.Raft.Node.{RaftNode, majority}
use rv_key_value.Raft.Vote.{request_vote}
use rv_key_value.Raft.Log.WellFormed.{IsWellFormed}
use rv_key_value.Raft.Election.{promote_candidate}
use rv_key_value.Raft.Steps.{Operation, stand, vote, perform, IsAllowed}
use rv_key_value.Raft.Steps.Reach.{IsQuiet}

-- A vote that a node cast, for itself or in answer to a request.
pub record Ballot : Type 0 where
  pub term : ℕ
  pub voter : String
  pub candidate : String

-- The nodes, the votes that they cast so far, and the leaders that there were, each with its term.
pub record Cluster (D : Type 0) : Type 0 where
  pub nodes : String → RaftNode D
  pub ballots : List Ballot
  pub leaders : List (ℕ × String)

-- A candidate has a name.
abbrev pub IsNamed : Operation → Type 0
IsNamed (vote req) = req.candidate_id ≢ ""
IsNamed _ = Unit

-- A majority of the voters cast their vote for `v` in the term.
pub record Won (voters : List String) (ballots : List Ballot) (term : ℕ) (v : String) : Type 0 where
  pub supports : String → Bool
  pub enough : majority (length voters) ≤ count supports voters
  pub voted :
      (x : String)
      → supports x ≡ true
      → Has (record { term = term; voter = x; candidate = v }) ballots

module _ {D : Type 0} where
  unfoldable pub put : String → RaftNode D → (String → RaftNode D) → String → RaftNode D
  put v m nodes x = if str_eq x v then m else nodes x

  -- The votes after node `v` performs an operation: standing for election, it votes for itself, and
  -- it may grant a request.
  unfoldable pub cast :
      ⦃stable : StableStore D⦄ → String → Operation → RaftNode D → List Ballot → List Ballot
  cast ⦃stable⦄ v stand n bs =
      record { term = suc n.current_term; voter = v; candidate = n.id } ∷ bs
  cast ⦃stable⦄ v (vote req) n bs =
      if (request_vote req n).1.vote_granted
      then record { term = req.term; voter = v; candidate = req.candidate_id } ∷ bs
      else bs
  cast ⦃stable⦄ v _ n bs = bs

module _ {D : Type 0} ⦃stable : StableStore D⦄ ⦃json : MembershipJson⦄ (voters : List String) where
  -- One step of the cluster: a node performs an operation, or it counted a majority of votes in a
  -- term and runs promoteCandidate.
  pub data Step (c : Cluster D) : Cluster D → Type 0 where
    act :
        {v : String} {m : RaftNode D} (op : Operation)
        → v ≢ ""
        → IsQuiet op
        → IsNamed op
        → IsAllowed op (c.nodes v)
        → perform op (c.nodes v) ≡ ret m
        → Step c (record {
          nodes = put v m c.nodes;
          ballots = cast v op (c.nodes v) c.ballots;
          leaders = c.leaders;
        })
    elect :
        {v : String} {term : ℕ} {m : RaftNode D} {won : Bool} {err : Option Error}
        → Won voters c.ballots term v
        → promote_candidate term (c.nodes v) ≡ ret (m, won, err)
        → Step c (record {
          nodes = put v m c.nodes;
          ballots = c.ballots;
          leaders = if won then (term, v) ∷ c.leaders else c.leaders;
        })

  -- What a cluster becomes, step by step.
  pub data Reaches (c : Cluster D) : Cluster D → Type 0 where
    start : Reaches c c
    then_step : {d e : Cluster D} → Reaches c d → Step d e → Reaches c e

  -- A cluster at its start: each node is well-formed, has its own name and does not lead, and
  -- nothing was voted yet.
  pub record IsStart (c : Cluster D) : Type 0 where
    pub shape : (v : String) → IsWellFormed (c.nodes v)
    pub names : (v : String) → (c.nodes v).id ≡ v
    pub none_leads : (v : String) → (c.nodes v).state ≢ leader
    pub no_ballots : c.ballots ≡ []
    pub no_leaders : c.leaders ≡ []
