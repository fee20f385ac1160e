-- ===== src/Examples/Elections.antt =====
-- Three nodes elect a leader.
use rv_key_value.Base.{
  String, true, none, some, List, [], ◌∷◌, ◌≡◌, ◌⊎◌, inl, inr, refl, ap, ◌||◌, ◌≤◌, eq_iff, str_eq,
  arith, ret,
}
use rv_key_value.Raft.Types.{
  PersistentState, RequestVoteRequest, is_log_at_least_up_to_date, leader,
}
use rv_key_value.Raft.Node.{RaftNode, become_candidate, is_member, contains_peer, persist, majority}
use rv_key_value.Raft.Vote.{request_vote, decide_vote}
use rv_key_value.Base.Map.{insert, erase}
use rv_key_value.Raft.Election.{promote_candidate}
use rv_key_value.Raft.Commit.{init_leader_progress, fill_progress, advance_commit, advance_loop}
use rv_key_value.Raft.Log.{last_log_index, last_log_term}
use rv_key_value.Raft.Log.WellFormed.{IsWellFormed}
use rv_key_value.Raft.Steps.{stand, vote, perform}
use rv_key_value.Raft.Cluster.{
  Cluster, Step, act, elect, Reaches, start, then_step, IsStart, put, cast, Won, Ballot,
}
use rv_key_value.Raft.Cluster.Safety.{one_leader_per_term, leaders_agree}
use rv_key_value.Examples.{voters, new_node, disk_store, no_membership}

new_node-IsWellFormed : (v : String) → IsWellFormed (new_node v)
new_node-IsWellFormed v = record {
  consecutive = tt;
  bounded = omega arith;
  included_applied = omega arith;
  applied_committed = omega arith;
  commit_bounded = omega arith;
  progress = refl;
}

abbrev before : Cluster PersistentState
before = record { nodes = new_node; ballots = []; leaders = [] }

before-IsStart : IsStart voters before
before-IsStart = record {
  shape = new_node-IsWellFormed;
  names = λ v. refl;
  none_leads = λ v e. cc;
  no_ballots = refl;
  no_leaders = refl;
}

abbrev standing : Cluster PersistentState
standing = record {
  nodes = put "a" (become_candidate (new_node "a")).0 new_node;
  ballots = cast "a" stand (new_node "a") [];
  leaders = [];
}

abbrev request : RequestVoteRequest
request = record { term = 1; candidate_id = "a"; last_log_index = 0; last_log_term = 0 }

abbrev voted : Cluster PersistentState
voted = record {
  nodes = put "b" (request_vote request (standing.nodes "b")).0 standing.nodes;
  ballots = cast "b" (vote request) (standing.nodes "b") standing.ballots;
  leaders = [];
}

stands : Step voters before standing
unfolding perform
stands = act {v = "a"} stand (λ e. cc) tt tt (omega arith) refl

votes : Step voters standing voted
unfolding perform
votes = act {v = "b"} (vote request) (λ e. cc) tt (λ e. cc) tt refl

abbrev ballots : List Ballot
ballots =
    record { term = 1; voter = "b"; candidate = "a" }
    ∷ record { term = 1; voter = "a"; candidate = "a" }
    ∷ []

voted_ballots : voted.ballots ≡ ballots
unfolding cast put request_vote is_member contains_peer decide_vote persist
    is_log_at_least_up_to_date last_log_index last_log_term
voted_ballots = refl

a_or_b : (x : String) → (str_eq x "a" || str_eq x "b") ≡ true → (x ≡ "a") ⊎ (x ≡ "b")
a_or_b x e = ground (arith, eq_iff x "a", eq_iff x "b")

enough_votes : majority 3 ≤ 2
unfolding majority
enough_votes = omega arith

a_wins : Won voters voted.ballots 1 "a"
a_wins = rw voted_ballots (record {
  supports = λ x. str_eq x "a" || str_eq x "b";
  enough = enough_votes;
  voted = λ x e. elim (a_or_b x e) [
    | inl a ↦ inr (inl (ap (λ y. record { term = 1; voter = y; candidate = "a" }) a))
    | inr b ↦ inl (ap (λ y. record { term = 1; voter = y; candidate = "a" }) b)
  ];
})

abbrev leading : RaftNode PersistentState
leading = record (new_node "a") {
  current_term = 1;
  voted_for = "a";
  state = leader;
  leader_id = "a";
  next_index = some (insert "c" 1 (insert "b" 1 []));
  match_index = some (insert "c" 0 (insert "b" 0 []));
}

a_leads : promote_candidate 1 (voted.nodes "a") ≡ ret (leading, true, none)
unfolding put become_candidate persist promote_candidate init_leader_progress fill_progress
    advance_commit advance_loop last_log_index insert erase
a_leads = refl

abbrev elected_a : Cluster PersistentState
elected_a = record {
  nodes = put "a" leading voted.nodes;
  ballots = voted.ballots;
  leaders = (1, "a") ∷ [];
}

elects : Step voters voted elected_a
elects = elect {v = "a"} {term = 1} {m = leading} {won = true} {err = none} a_wins a_leads

run : Reaches voters before elected_a
run = then_step (then_step (then_step start stands) votes) elects

a_is_leader : (elected_a.nodes "a").state ≡ leader
unfolding put
a_is_leader = refl

abbrev node_a : String
node_a = "a"

one_leader_per_term_example : node_a ≡ node_a
one_leader_per_term_example =
    one_leader_per_term voters before elected_a 1 "a" "a" before-IsStart run (inl refl) (inl refl)

leaders_agree_example : node_a ≡ node_a
leaders_agree_example =
    leaders_agree voters before elected_a "a" "a" before-IsStart run a_is_leader a_is_leader refl
