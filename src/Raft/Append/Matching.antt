-- ===== src/Raft/Append/Matching.antt =====
-- What HandleAppendEntries does to a follower's log and commit index.
use rv_key_value.Base.{
  ℕ, suc, ◌+◌, ◌-◌, ◌≤◌, ◌<◌, true, Option, ◌≡◌, refl, arith, ltb, ◌||◌, if◌then◌else◌, length,
  get_elem?, min, max, ret, Returns, Returns-ret, inr,
}
use rv_key_value.Raft.Types.{
  leader, StableStore, Error, AppendEntriesRequest, AppendEntriesResponse,
}
use rv_key_value.Raft.Node.{RaftNode}
use rv_key_value.Raft.Log.WellFormed.{IsWellFormed, term_of, term_view}
use rv_key_value.Raft.Keeps.{KeepsVote, Follows}
use rv_key_value.Raft.Append.{follow_leader, follow_commit, handle_append_entries}
use rv_key_value.Raft.Append.Follower.{
  IsValid, taken, Outcome, refuses, misses, takes, handle_append_entries-Outcome, follow_leader_lem,
  follow_commit_lem,
}
use rv_key_value.Raft.Append.Outcomes.{
  persist_if-keeps, Outcome-IsWellFormed, matches_after, prefix_after, commit_after, log_after,
}

module _ {D : Type 0} ⦃stable : StableStore D⦄ (req : AppendEntriesRequest) (n : RaftNode D)
    (w : IsWellFormed n) (v : IsValid req) where
  -- HandleAppendEntries does not panic on a well-formed node, if the request is a valid one, and it
  -- leaves a well-formed node.
  pub handle_append_entries-IsWellFormed :
      Returns (handle_append_entries req n) (λ s. IsWellFormed s.0)
  handle_append_entries-IsWellFormed =
      Outcome-IsWellFormed req n w v (handle_append_entries req n)
        (handle_append_entries-Outcome req n w v)

  module _ {s : RaftNode D × AppendEntriesResponse × Option Error}
      (e : handle_append_entries req n ≡ ret s) where
    -- After an append that a well-formed follower accepted, its log has the term of every sent entry
    -- behind the compacted prefix, at the index that follows from the previous entry's. The request is
    -- a valid one.
    pub log_matching :
        s.1.success ≡ true
        → (k : ℕ) → k < length req.entries
        → n.last_included_index < suc (req.prev_log_index + k)
        → term_view s.0 (suc (req.prev_log_index + k)) ≡ term_of (get_elem? req.entries k)
    log_matching = rw e at (matches_after req n w v _ (handle_append_entries-Outcome req n w v))

    -- After an append that a well-formed follower accepted, the entries of its log up to the previous
    -- entry are those that were there. The request is a valid one.
    pub prefix_kept :
        s.1.success ≡ true
        → (i : ℕ) → n.last_included_index < i
        → i ≤ req.prev_log_index
        → get_elem? s.0.log (i - suc n.last_included_index)
          ≡ get_elem? n.log (i - suc n.last_included_index)
    prefix_kept = rw e at (prefix_after req n w v _ (handle_append_entries-Outcome req n w v))

    -- The commit index of a follower that accepts is the larger of its own and of the smaller of the
    -- leader's and the last index of its new log; one that does not accept keeps its commit index and
    -- its log. The follower is well-formed, and the request a valid one.
    pub follower_commit :
        (s.0.commit_index ≡ (
          if s.1.success
          then max n.commit_index (min req.leader_commit (s.0.last_included_index + length s.0.log))
          else n.commit_index))
        × (s.0.log ≡ (if s.1.success then s.0.log else n.log))
    follower_commit = (
      rw e at (commit_after req n w v _ (handle_append_entries-Outcome req n w v)),
      rw e at (log_after req n w v _ (handle_append_entries-Outcome req n w v)),
    )

module _ {D : Type 0} ⦃stable : StableStore D⦄ (req : AppendEntriesRequest) (n : RaftNode D) where
  -- The vote, the name and the role of a node.
  abbrev SameVoter : RaftNode D → Type 0
  SameVoter m =
      KeepsVote n m
      × (m.id ≡ n.id)
      × (m.state ≡ leader → (n.state ≡ leader) × (m.current_term ≡ n.current_term))

  follow_leader_votes : SameVoter (follow_leader req n)
  follow_leader_votes = rw (follow_leader_lem req n) (ground arith)

  pub votes_after : (r : _) → Outcome req n r → Returns r (λ s. SameVoter s.0)
  votes_after r (refuses stopped e) = rw e (inr (refl, inr refl), refl, λ l. (l, refl))
  votes_after r (misses passed missing e) = rw e (
      persist_if-keeps SameVoter (ltb n.current_term req.term) (follow_leader req n)
        (λ d. follow_leader_votes))
  votes_after r (takes passed there e) = rw e (
      persist_if-keeps SameVoter (ltb n.current_term req.term || (taken req n).1)
        (follow_commit req.leader_commit (taken req n).0)
        (λ d. rw (follow_commit_lem req.leader_commit (taken req n).0) follow_leader_votes))

  pub handle_append_entries-Follows :
      IsWellFormed n → IsValid req → Returns (handle_append_entries req n) (λ s. Follows n s.0)
  handle_append_entries-Follows w v =
      let outcome = handle_append_entries-Outcome req n w v in
      let (s, e, shape) =
        Returns-ret (handle_append_entries req n) (handle_append_entries-IsWellFormed req n w v) in
      let votes = rw e at (votes_after _ outcome) in
      rw e (record { shape = shape; votes = votes.0; name = votes.1; role = votes.2 })
