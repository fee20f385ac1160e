-- ===== src/Raft/Apply/Compaction.antt =====
-- Compact drops the applied prefix of the log, and keeps what the log shows behind it.
use native.Mathlib.Decide.{dec_lt}
use rv_key_value.Base.{
  drop-beyond, ℕ, suc, ◌+◌, ◌-◌, ◌≤◌, ◌<◌, Option, none, some, ◌≡◌, refl, sym, ap, ◌∙◌, subst,
  arith, length, length-drop, get_elem?, drop, u64, sub64, ret, Returns,
}
use rv_key_value.Raft.Types.{Bytes, StableStore, log_inconsistent}
use rv_key_value.Raft.Node.{RaftNode, persist}
use rv_key_value.Raft.Node.Persist.{persist-keeps}
use rv_key_value.Raft.Log.WellFormed.{
  IsWellFormed, IsConsecutive-at, IsConsecutive-drop, term_view, term_of, log_term_at_lem,
  first_log_index_lem, last_log_index_lem,
}
use rv_key_value.Raft.Log.Accept.{term_view-pos}
use rv_key_value.Raft.Log.Views.{get_elem?-drop, term_view-position, term_view_cong}
use rv_key_value.Raft.Apply.{compacted_log, compact}

module _ {D : Type 0} (n : RaftNode D) where
  -- The node after a compaction, before it is persisted.
  abbrev pub compacting : Bytes → RaftNode D
  compacting snapshot = record n {
    log = drop (n.last_applied - n.last_included_index) n.log;
    last_included_index = n.last_applied;
    last_included_term = term_view n n.last_applied;
    snapshot = snapshot;
  }

module _ {D : Type 0} (n : RaftNode D) (w : IsWellFormed n) where
  -- The log that is left begins behind the compacted index.
  compacted_log_lem :
      (i : ℕ)
      → n.last_included_index < i
      → i ≤ n.last_included_index + length n.log
      → compacted_log i n ≡ ret (drop (i - n.last_included_index) n.log)
  unfolding compacted_log
  compacted_log_lem i low high =
      let position : u64 (sub64 i (suc n.last_included_index) + 1) ≡ i - n.last_included_index =
        omega (arith, w) in
      rw (first_log_index_lem n w, last_log_index_lem n w)
        (rw position (ground (arith, drop-beyond (i - n.last_included_index) n.log)))

  pub compacting-IsWellFormed :
      (snapshot : Bytes)
      → n.last_applied ≤ n.last_included_index + length n.log
      → IsWellFormed (compacting n snapshot)
  compacting-IsWellFormed snapshot high = record {
    consecutive =
        IsConsecutive-at (drop (n.last_applied - n.last_included_index) n.log) (omega (arith, w)) (
          IsConsecutive-drop (suc n.last_included_index) (n.last_applied - n.last_included_index)
            n.log w.consecutive);
    bounded = omega (arith, w, length-drop (n.last_applied - n.last_included_index) n.log);
    included_applied = omega arith;
    applied_committed = w.applied_committed;
    commit_bounded = w.commit_bounded;
    progress = w.progress;
  }

-- At the end of the compacted prefix a node shows the term that it keeps.
included_view :
    {D : Type 0} (m : RaftNode D)
    → 0 < m.last_included_index
    → term_view m m.last_included_index ≡ m.last_included_term
unfolding term_view
included_view m h = ground arith

module _ {D : Type 0} ⦃stable : StableStore D⦄ (n : RaftNode D) (w : IsWellFormed n)
    (snapshot : Bytes) where
  compact_idle : n.last_applied ≤ n.last_included_index → compact snapshot n ≡ ret (n, none)
  unfolding compact
  compact_idle h = ground arith

  compact_unknown :
      n.last_included_index < n.last_applied
      → term_view n n.last_applied ≡ 0
      → compact snapshot n ≡ ret (n, some (log_inconsistent n.last_applied 0))
  unfolding compact
  compact_unknown h z = rw (log_term_at_lem n w n.last_applied) (ground arith)

  pub compact_known :
      n.last_included_index < n.last_applied
      → 0 < term_view n n.last_applied
      → compact snapshot n ≡ ret (persist (compacting n snapshot))
  unfolding compact
  compact_known h z =
      rw (log_term_at_lem n w n.last_applied) (
        ground (arith, compacted_log_lem n w n.last_applied h (term_view-pos n n.last_applied z).1))

  compacted_entry :
      (i : ℕ)
      → n.last_included_index < n.last_applied
      → n.last_applied < i
      → get_elem? (compacting n snapshot).log (i - suc n.last_applied)
        ≡ get_elem? n.log (i - suc n.last_included_index)
  compacted_entry i high h =
      let k = n.last_applied - n.last_included_index in
      let position : k + (i - suc n.last_applied) ≡ i - suc n.last_included_index = omega arith in
      get_elem?-drop k (i - suc n.last_applied) n.log ∙ ap (λ (q : ℕ). get_elem? n.log q) position

  compacted_end :
      n.last_included_index < n.last_applied
      → term_view (compacting n snapshot) n.last_applied ≡ term_view n n.last_applied
  compacted_end high = included_view (compacting n snapshot) (omega arith)

  compacted_view :
      (i : ℕ)
      → n.last_included_index < n.last_applied
      → n.last_applied ≤ i
      → term_view (compacting n snapshot) i ≡ term_view n i
  compacted_view i high h = elim (dec_lt n.last_applied i) [
    | yes behind ↦
        term_view-position (compacting n snapshot) i behind
        ∙ ap term_of (compacted_entry i high behind)
        ∙ sym (term_view-position n i (omega arith))
    | no end ↦
        let e : i ≡ n.last_applied = omega arith in
        subst (λ (q : ℕ). term_view (compacting n snapshot) q ≡ term_view n q) (sym e)
          (compacted_end high)
  ]

  -- What holds of the node as it was, and as a compaction leaves it, holds after Compact.
  pub compact-Returns :
      (P : RaftNode D → Type 0)
      → P n
      → (n.last_included_index < n.last_applied
          → 0 < term_view n n.last_applied
          → (d : Option D) → P (record (compacting n snapshot) { store = d }))
      → Returns (compact snapshot n) (λ r. P r.0)
  compact-Returns P old new = elim (dec_lt n.last_included_index n.last_applied) [
    | no low ↦ rw (compact_idle (omega arith)) old
    | yes high ↦ elim (dec_lt 0 (term_view n n.last_applied)) [
      | no unknown ↦ rw (compact_unknown high (omega arith)) old
      | yes known ↦
          rw (compact_known high known) (persist-keeps P (compacting n snapshot) (new high known))
    ]
  ]

  -- Compact does not panic on a well-formed node. At the last applied index and behind it the node
  -- shows the terms that it showed before, and behind it the log holds the entries that it held.
  pub compact_views : Returns (compact snapshot n) (λ r.
      ((i : ℕ) → n.last_applied ≤ i → term_view r.0 i ≡ term_view n i)
      × ((i : ℕ)
          → n.last_applied < i
          → get_elem? r.0.log (i - suc r.0.last_included_index)
            ≡ get_elem? n.log (i - suc n.last_included_index)))
  compact_views =
      compact-Returns
        (λ m.
          ((i : ℕ) → n.last_applied ≤ i → term_view m i ≡ term_view n i)
          × ((i : ℕ)
              → n.last_applied < i
              → get_elem? m.log (i - suc m.last_included_index)
                ≡ get_elem? n.log (i - suc n.last_included_index)))
        (λ i h. refl, λ i h. refl)
        (λ high known d. (
          λ i h.
              term_view_cong _ (compacting n snapshot) i refl refl refl ∙ compacted_view i high h,
          λ i h. compacted_entry i high h,
        ))
