-- ===== src/Raft/Append/Outcomes.antt =====
-- What each outcome of HandleAppendEntries leaves of a log and of a commit index.
use rv_key_value.Base.{
  ℕ, suc, ◌+◌, ◌-◌, ◌≤◌, ◌<◌, Bool, true, false, Option, ◌≡◌, refl, sym, ap, ◌∙◌, subst, arith, ltb,
  ◌||◌, if◌then◌else◌, length, get_elem?, min, max, Returns,
}
use rv_key_value.Raft.Types.{StableStore, AppendEntriesRequest}
use rv_key_value.Raft.Node.{RaftNode}
use rv_key_value.Raft.Node.Persist.{persist_lem}
use rv_key_value.Raft.Log.WellFormed.{IsWellFormed, term_of, term_view}
use rv_key_value.Raft.Log.Accept.{accepts, accepted-IsWellFormed, term_view-pos}
use rv_key_value.Raft.Log.Views.{accepted-term, accepted-before, term_view_cong}
use rv_key_value.Raft.Append.{follow_leader, follow_commit, persist_if}
use rv_key_value.Raft.Append.Follower.{
  IsValid, taken, Outcome, refuses, misses, takes, follow_leader-IsWellFormed,
  follow_commit-IsWellFormed, follow_leader_lem, follow_commit_lem, follow_commit-index,
}

module _ {D : Type 0} ⦃stable : StableStore D⦄ where
  persist_if_lem :
      (b : Bool) (n : RaftNode D)
      → (persist_if b n).0 ≡ record n { store = (persist_if b n).0.store }
  unfolding persist_if
  persist_if_lem true n = persist_lem n
  persist_if_lem false n = refl

  -- A property that does not look at the store survives persisting.
  pub persist_if-keeps :
      (P : RaftNode D → Type 0) (b : Bool) (n : RaftNode D)
      → ((d : Option D) → P (record n { store = d }))
      → P (persist_if b n).0
  persist_if-keeps P b n h = subst P (sym (persist_if_lem b n)) (h (persist_if b n).0.store)

  pub store-IsWellFormed :
      {n : RaftNode D} (d : Option D) → IsWellFormed n → IsWellFormed (record n { store = d })
  store-IsWellFormed d w = record {
    consecutive = w.consecutive;
    bounded = w.bounded;
    included_applied = w.included_applied;
    applied_committed = w.applied_committed;
    commit_bounded = w.commit_bounded;
    progress = w.progress;
  }

  module _ (req : AppendEntriesRequest) (n : RaftNode D) (w : IsWellFormed n)
      (v : IsValid req) where
    -- An accepted previous entry lies in the log.
    prev_inside :
        accepts (follow_leader req n) req.prev_log_index req.prev_log_term ≡ true
        → req.prev_log_index
          ≤ (follow_leader req n).last_included_index + length (follow_leader req n).log
    prev_inside there =
        ground (arith, v.prev, term_view-pos (follow_leader req n) req.prev_log_index)

    taken-IsWellFormed :
        accepts (follow_leader req n) req.prev_log_index req.prev_log_term ≡ true
        → IsWellFormed (taken req n).0
    taken-IsWellFormed there =
        accepted-IsWellFormed (follow_leader req n) (follow_leader-IsWellFormed req n w)
          req.prev_log_index req.entries (prev_inside there) v.fits

    pub Outcome-IsWellFormed : (r : _) → Outcome req n r → Returns r (λ s. IsWellFormed s.0)
    Outcome-IsWellFormed r (refuses stopped e) = rw e w
    Outcome-IsWellFormed r (misses passed missing e) = rw e (
        persist_if-keeps IsWellFormed (ltb n.current_term req.term) (follow_leader req n)
          (λ d. store-IsWellFormed d (follow_leader-IsWellFormed req n w)))
    Outcome-IsWellFormed r (takes passed there e) = rw e (
        persist_if-keeps IsWellFormed (ltb n.current_term req.term || (taken req n).1)
          (follow_commit req.leader_commit (taken req n).0)
          (λ d. store-IsWellFormed d (
            follow_commit-IsWellFormed req.leader_commit (taken req n).0
              (taken-IsWellFormed there))))

    included_lem : (follow_leader req n).last_included_index ≡ n.last_included_index
    included_lem = ap (λ m. m.last_included_index) (follow_leader_lem req n)

    log_lem : (follow_leader req n).log ≡ n.log
    log_lem = ap (λ m. m.log) (follow_leader_lem req n)

    commit_lem : (follow_leader req n).commit_index ≡ n.commit_index
    commit_lem = ap (λ m. m.commit_index) (follow_leader_lem req n)

    pub matches_after :
        (r : _)
        → Outcome req n r
        → Returns r (λ s.
          s.1.success ≡ true
          → (k : ℕ) → k < length req.entries
          → n.last_included_index < suc (req.prev_log_index + k)
          → term_view s.0 (suc (req.prev_log_index + k)) ≡ term_of (get_elem? req.entries k))
    matches_after r (refuses stopped e) = rw e (λ s k inside behind. cc)
    matches_after r (misses passed missing e) = rw e (λ s k inside behind. cc)
    matches_after r (takes passed there e) = rw e (λ s k inside behind.
        persist_if-keeps
          (λ m. term_view m (suc (req.prev_log_index + k)) ≡ term_of (get_elem? req.entries k))
          (ltb n.current_term req.term || (taken req n).1)
          (follow_commit req.leader_commit (taken req n).0)
          (λ d.
            term_view_cong _ (taken req n).0 (suc (req.prev_log_index + k))
              (ap (λ m. m.log) (follow_commit_lem req.leader_commit (taken req n).0))
              (ap (λ m. m.last_included_index)
                (follow_commit_lem req.leader_commit (taken req n).0))
              (ap (λ m. m.last_included_term) (follow_commit_lem req.leader_commit (taken req n).0))
            ∙ accepted-term (follow_leader req n) (follow_leader-IsWellFormed req n w)
                req.prev_log_index req.entries (prev_inside there) k inside
                (rw included_lem behind)))

    pub prefix_after :
        (r : _)
        → Outcome req n r
        → Returns r (λ s.
          s.1.success ≡ true
          → (i : ℕ) → n.last_included_index < i
          → i ≤ req.prev_log_index
          → get_elem? s.0.log (i - suc n.last_included_index)
            ≡ get_elem? n.log (i - suc n.last_included_index))
    prefix_after r (refuses stopped e) = rw e (λ s i behind before. cc)
    prefix_after r (misses passed missing e) = rw e (λ s i behind before. cc)
    prefix_after r (takes passed there e) = rw e (λ s i behind before.
        persist_if-keeps
          (λ m.
            get_elem? m.log (i - suc n.last_included_index)
            ≡ get_elem? n.log (i - suc n.last_included_index))
          (ltb n.current_term req.term || (taken req n).1)
          (follow_commit req.leader_commit (taken req n).0)
          (λ d. rw (ap (λ m. m.log) (follow_commit_lem req.leader_commit (taken req n).0)) (
            subst
              (λ (q : ℕ).
                get_elem? (taken req n).0.log (i - suc q)
                ≡ get_elem? (follow_leader req n).log (i - suc q))
              included_lem
              (accepted-before (follow_leader req n) (follow_leader-IsWellFormed req n w)
                req.prev_log_index req.entries (prev_inside there) i (rw included_lem behind)
                before)
            ∙ ap (λ l. get_elem? l (i - suc n.last_included_index)) log_lem)))

    pub commit_after :
        (r : _)
        → Outcome req n r
        → Returns r (λ s. s.0.commit_index ≡ (
            if s.1.success
            then max n.commit_index
                (min req.leader_commit (s.0.last_included_index + length s.0.log))
            else n.commit_index))
    commit_after r (refuses stopped e) = rw e
    commit_after r (misses passed missing e) = rw e (
        persist_if-keeps (λ m. m.commit_index ≡ n.commit_index) (ltb n.current_term req.term)
          (follow_leader req n) (λ d. commit_lem))
    commit_after r (takes passed there e) = rw e (
        persist_if-keeps
          (λ m.
            m.commit_index
            ≡ max n.commit_index (min req.leader_commit (m.last_included_index + length m.log)))
          (ltb n.current_term req.term || (taken req n).1)
          (follow_commit req.leader_commit (taken req n).0)
          (λ d.
            subst
              (λ (c : ℕ).
                (follow_commit req.leader_commit (taken req n).0).commit_index
                ≡ max c (
                    min req.leader_commit (
                      (follow_commit req.leader_commit (taken req n).0).last_included_index
                      + length (follow_commit req.leader_commit (taken req n).0).log)))
              commit_lem
              (follow_commit-index req.leader_commit (taken req n).0 (taken-IsWellFormed there))))

    pub log_after :
        (r : _)
        → Outcome req n r
        → Returns r (λ s. s.0.log ≡ (if s.1.success then s.0.log else n.log))
    log_after r (refuses stopped e) = rw e
    log_after r (misses passed missing e) = rw e (
        persist_if-keeps (λ m. m.log ≡ n.log) (ltb n.current_term req.term) (follow_leader req n)
          (λ d. log_lem))
    log_after r (takes passed there e) = rw e
