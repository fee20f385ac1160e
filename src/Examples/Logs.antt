-- ===== src/Examples/Logs.antt =====
-- A follower takes entries, a leader commits them, and the applied ones are compacted.
use rv_key_value.Base.{
  ℕ, suc, true, Option, none, some, [], ◌∷◌, ◌≡◌, inr, refl, arith, ret, Returns, ◌<◌, ◌≤◌,
  get_elem?, ◌-◌,
}
use rv_key_value.Raft.Types.{
  PersistentState, Error, leader, AppendEntriesRequest, AppendEntriesResponse,
}
use rv_key_value.Raft.Node.{RaftNode, persist, is_member, contains_peer}
use rv_key_value.Raft.Log.WellFormed.{IsWellFormed, term_view}
use rv_key_value.Raft.Append.{handle_append_entries, follow_leader, follow_commit, persist_if}
use rv_key_value.Raft.Log.{
  append_entries_to_log, append_loop, last_log_index, first_log_index, contains_log_index, entry_at,
  log_term_at, last_entry?, normalize_entries,
}
use rv_key_value.Raft.Append.Follower.{IsValid}
use rv_key_value.Raft.Append.Matching.{
  log_matching, prefix_kept, follower_commit, handle_append_entries-IsWellFormed,
}
use rv_key_value.Raft.Commit.Advance.{Advanced, advance_commit_lem}
use rv_key_value.Raft.Commit.{advance_commit}
use rv_key_value.Raft.Apply.{compact, next_committed_entry}
use rv_key_value.Raft.Steps.Reach.{IsNext, next_committed_entry-IsNext}
use rv_key_value.Raft.Apply.Compaction.{compact_views}
use rv_key_value.Examples.{new_node, entry, disk_store, no_membership}

-- A follower whose second entry is from a term that lost.
abbrev pub follower_b : RaftNode PersistentState
follower_b = record (new_node "b") { current_term = 2; log = entry 1 1 ∷ entry 1 2 ∷ [] }

abbrev pub request : AppendEntriesRequest
request = record {
  term = 2;
  leader_id = "a";
  prev_log_index = 1;
  prev_log_term = 1;
  entries = entry 2 2 ∷ entry 2 3 ∷ [];
  leader_commit = 2;
}

pub follower_b-IsWellFormed : IsWellFormed follower_b
follower_b-IsWellFormed = record {
  consecutive = (refl, (refl, tt));
  bounded = omega arith;
  included_applied = omega arith;
  applied_committed = omega arith;
  commit_bounded = omega arith;
  progress = refl;
}

pub request-IsValid : IsValid request
request-IsValid = record { prev = inr (omega arith); fits = omega arith }

abbrev pub follower_after : RaftNode PersistentState
follower_after = record follower_b {
  log = entry 1 1 ∷ entry 2 2 ∷ entry 2 3 ∷ [];
  leader_id = "a";
  commit_index = 2;
  commit_ready = true;
}

abbrev accepted_reply : RaftNode PersistentState × AppendEntriesResponse × Option Error
accepted_reply = (follower_after, record { term = 2; success = true }, none)

pub accepted_run : handle_append_entries request follower_b ≡ ret accepted_reply
unfolding handle_append_entries append_entries_to_log append_loop follow_leader follow_commit
    persist_if persist is_member contains_peer last_log_index first_log_index contains_log_index
    entry_at log_term_at last_entry? normalize_entries
accepted_run = refl

handle_append_entries-IsWellFormed_example :
    Returns (handle_append_entries request follower_b) (λ s. IsWellFormed s.0)
handle_append_entries-IsWellFormed_example =
    handle_append_entries-IsWellFormed request follower_b follower_b-IsWellFormed request-IsValid

log_matching_example : term_view follower_after 3 ≡ 2
log_matching_example =
    log_matching request follower_b follower_b-IsWellFormed request-IsValid accepted_run refl 1
      (omega arith) (omega arith)

prefix_kept_example : get_elem? follower_after.log 0 ≡ some (entry 1 1)
prefix_kept_example =
    prefix_kept request follower_b follower_b-IsWellFormed request-IsValid accepted_run refl 1
      (omega arith) (omega arith)

follower_commit_example :
    (follower_after.commit_index ≡ 2) × (follower_after.log ≡ follower_after.log)
follower_commit_example =
    follower_commit request follower_b follower_b-IsWellFormed request-IsValid accepted_run

-- A leader of term 2 whose second entry has reached one of its two peers.
abbrev pub leader_a : RaftNode PersistentState
leader_a = record (new_node "a") {
  state = leader;
  leader_id = "a";
  current_term = 2;
  log = entry 1 1 ∷ entry 2 2 ∷ [];
  next_index = some (("b", 3) ∷ ("c", 1) ∷ []);
  match_index = some (("b", 2) ∷ ("c", 0) ∷ []);
}

pub leader_a-IsWellFormed : IsWellFormed leader_a
leader_a-IsWellFormed = record {
  consecutive = (refl, (refl, tt));
  bounded = omega arith;
  included_applied = omega arith;
  applied_committed = omega arith;
  commit_bounded = omega arith;
  progress = refl;
}

advance_commit_lem_example : Returns (advance_commit leader_a) (Advanced leader_a 2)
advance_commit_lem_example = advance_commit_lem leader_a leader_a-IsWellFormed refl refl

-- A node that has applied one of its two entries.
abbrev pub applied_a : RaftNode PersistentState
applied_a = record leader_a { commit_index = 2; last_applied = 1 }

pub applied_a-IsWellFormed : IsWellFormed applied_a
applied_a-IsWellFormed = record {
  consecutive = (refl, (refl, tt));
  bounded = omega arith;
  included_applied = omega arith;
  applied_committed = omega arith;
  commit_bounded = omega arith;
  progress = refl;
}

compact_views_example : Returns (compact [] applied_a) (λ r.
    ((i : ℕ) → 1 ≤ i → term_view r.0 i ≡ term_view applied_a i)
    × ((i : ℕ)
        → 1 < i
        → get_elem? r.0.log (i - suc r.0.last_included_index) ≡ get_elem? applied_a.log (i - 1)))
compact_views_example = compact_views applied_a applied_a-IsWellFormed []

next_committed_entry-IsNext_example : Returns (next_committed_entry applied_a) (IsNext applied_a)
next_committed_entry-IsNext_example = next_committed_entry-IsNext applied_a applied_a-IsWellFormed
