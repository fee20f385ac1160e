-- ===== src/Examples/Operations.antt =====
-- A node applies, replicates, campaigns, restarts, and takes proposals.
use rv_key_value.Base.{
  ◌+◌, true, false, Option, none, some, List, [], ◌∷◌, ◌≡◌, refl, arith, ret, Returns,
}
use rv_key_value.Base.Map.{lookup, lookup?}
use rv_key_value.Raft.Types.{
  PersistentState, LogEntry, StateMachine, Error, candidate, RequestVoteResponse,
}
use rv_key_value.Raft.Membership.{
  MembershipJson, MembershipChange, add_peer, encode_membership_change, decode_membership_change,
  validate, decoded,
}
use rv_key_value.Raft.Membership.RoundTrip.{command_of, decode-encode}
use rv_key_value.Raft.Node.{RaftNode, majority, new_raft_node, persist, persistent_state}
use rv_key_value.Raft.Node.Restart.{restarted, new_raft_node-persist}
use rv_key_value.Raft.Log.WellFormed.{IsWellFormed}
use rv_key_value.Raft.Append.{build_append_entries, local_entry}
use rv_key_value.Raft.Append.Leader.{HasTerms, PointsInside, IsOwn, build_append_entries-IsOwn}
use rv_key_value.Raft.Apply.{apply_committed, apply_membership_change_locked}
use rv_key_value.Raft.Apply.Members.{ChangesMembers}
use rv_key_value.Raft.Apply.Changing.{Changed, apply_membership_change_locked-Changed}
use rv_key_value.Raft.Apply.Order.{Fed, apply_committed-Fed}
use rv_key_value.Raft.Election.{
  Awaited, failed, answered, Interference, request_votes, start_election,
}
use rv_key_value.Raft.Election.Winning.{
  granted, Elected, request_votes-Elected, isolated_node_waits,
}
use rv_key_value.Raft.Replicate.{Attempt, propose}
use rv_key_value.Raft.Replicate.Proposals.{IsSoundAttempt, Proposes, propose-Proposes}
use rv_key_value.Examples.{new_node, entry, disk_store, no_membership}
use rv_key_value.Examples.Logs.{leader_a, leader_a-IsWellFormed, applied_a, applied_a-IsWellFormed}

-- A state machine that keeps the entries that it was fed, the last one first.
instance abbrev pub recorder : StateMachine (List LogEntry)
recorder = record { apply = λ e m. (e ∷ m, none) }

apply_committed-Fed_example : Returns (apply_committed applied_a (entry 1 1 ∷ [])) (λ o.
    (r : RaftNode PersistentState × List LogEntry × Option Error) × (o ≡ some r)
    × Fed applied_a (entry 1 1 ∷ []) r)
apply_committed-Fed_example = apply_committed-Fed applied_a (entry 1 1 ∷ []) applied_a-IsWellFormed

abbrev add_d : MembershipChange
add_d = record { change_type = add_peer; peer_id = "d" }

apply_membership_change_locked-Changed_example :
    Returns
      (apply_membership_change_locked add_d leader_a)
      (λ r. Changed leader_a r.0 × ChangesMembers add_d leader_a r)
apply_membership_change_locked-Changed_example =
    apply_membership_change_locked-Changed leader_a add_d leader_a-IsWellFormed

leader_a-HasTerms : HasTerms leader_a
leader_a-HasTerms = record {
  entries = (omega arith, (omega arith, tt));
  included = λ h. absurd (omega arith);
}

points_inside : PointsInside leader_a "c"
unfolding lookup? lookup
points_inside next e = ground (arith, e)

build_append_entries-IsOwn_example :
    Returns (build_append_entries "c" leader_a) (λ r. r.1 ≡ none → IsOwn leader_a r.0)
build_append_entries-IsOwn_example =
    build_append_entries-IsOwn leader_a leader_a-IsWellFormed "c" leader_a-HasTerms points_inside

abbrev candidate_a : RaftNode PersistentState
candidate_a = record (new_node "a") { state = candidate; current_term = 1; voted_for = "a" }

candidate_a-IsWellFormed : IsWellFormed candidate_a
candidate_a-IsWellFormed = record {
  consecutive = tt;
  bounded = omega arith;
  included_applied = omega arith;
  applied_committed = omega arith;
  commit_bounded = omega arith;
  progress = refl;
}

-- No other goroutine acts on the node.
abbrev pub calm : Interference PersistentState
calm = record {
  before_pre_vote = λ n. n;
  before_snapshot = λ n. n;
  before_candidate = λ n. n;
  before_requests = λ n. n;
  before_promotion = λ n. n;
}

abbrev pub one_vote : List (Awaited PersistentState RequestVoteResponse)
one_vote =
    failed ∷ answered (record { term = 1; vote_granted = true }) (λ n. n) (λ n. n) (λ n. n) ∷ []

request_votes-Elected_example :
    Returns
      (request_votes calm one_vote (candidate_a, none))
      (Elected 1 (majority 3) (1 + granted one_vote))
request_votes-Elected_example =
    request_votes-Elected calm one_vote candidate_a candidate_a-IsWellFormed (λ n w. w) (λ n w. w)
      (tt, ((λ n w. w, λ n w. w, λ n w. w), tt))

isolated_node_waits_example :
    start_election true calm (failed ∷ failed ∷ []) [] (new_node "a")
    ≡ ret (new_node "a", false, none)
isolated_node_waits_example =
    isolated_node_waits calm (failed ∷ failed ∷ []) [] (new_node "a") (refl, (refl, tt)) refl refl
      (omega arith)

abbrev stored_a : RaftNode PersistentState
stored_a = record leader_a { store = some (persistent_state (new_node "a")) }

new_raft_node-persist_example :
    new_raft_node "a" ("z" ∷ []) (persist stored_a).0.store
    ≡ (some (restarted ("z" ∷ []) (persist stored_a).0), none)
new_raft_node-persist_example =
    new_raft_node-persist stored_a ("z" ∷ []) (persistent_state (new_node "a")) refl refl

-- A codec that reads back the one document that it writes.
abbrev one_document : MembershipJson
one_document = record { marshal = λ c. 1 ∷ []; unmarshal = λ b. some (command_of add_d) }

decode-encode_example :
    ((encode_membership_change ⦃json = one_document⦄ add_d).1 ≡ validate add_d)
    × (decode_membership_change ⦃json = one_document⦄
          (encode_membership_change ⦃json = one_document⦄ add_d).0
        ≡ elim (validate add_d) [
          | none ↦ decoded add_d
          | some e ↦ decode_membership_change ⦃json = one_document⦄ []
        ])
decode-encode_example = decode-encode ⦃json = one_document⦄ add_d refl

abbrev pub calm_attempt : Attempt PersistentState
calm_attempt = record {
  before_check = λ n. n;
  before_state = λ n. n;
  before_recheck = λ n. n;
  wait = none;
  round = record {
    before_peers = λ n. n;
    context_at = λ i. none;
    before_request = λ i n. n;
    replies = [];
  };
}

pub calm_attempt-IsSoundAttempt : IsSoundAttempt calm_attempt
calm_attempt-IsSoundAttempt = record {
  before_check = λ n w. w;
  before_state = λ n w. w;
  before_recheck = λ n w. w;
  round = record { before_peers = λ n w. w; before_request = λ i n w. w; replies = tt };
}

propose-Proposes_example :
    Returns
      (propose none true (λ n. n) (7 ∷ []) (calm_attempt ∷ []) leader_a)
      (Proposes (local_entry (7 ∷ []) leader_a))
propose-Proposes_example =
    propose-Proposes none true (λ n. n) (7 ∷ []) (calm_attempt ∷ []) leader_a leader_a-IsWellFormed
      (λ n w. w) (omega arith) (calm_attempt-IsSoundAttempt, tt)
