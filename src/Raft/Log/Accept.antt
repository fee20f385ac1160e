-- ===== src/Raft/Log/Accept.antt =====
-- appendEntriesToLogLocked as a whole: the check of the previous entry, and the merge behind it.
use native.Mathlib.Decide.{dec_le}
use rv_key_value.Base.{
  ℕ, zero, suc, ◌+◌, ◌-◌, ◌≤◌, ◌<◌, Bool, true, false, none, some, List, [], ◌∷◌, ◌≡◌, ◌⊎◌, refl,
  sym, ◌∙◌, arith, leb, ◌==◌, ◌||◌, if◌then◌else◌, length, get_elem?, take, drop, length-take,
  length-drop, length-append, u64_mod, u64, ret,
}
use rv_key_value.Raft.Types.{LogEntry, log_inconsistent}
use rv_key_value.Raft.Node.{RaftNode}
use rv_key_value.Raft.Log.{append_loop, append_entries_to_log}
use rv_key_value.Raft.Log.WellFormed.{
  IsConsecutive-at, IsConsecutive-append, IsConsecutive-take, IsConsecutive-drop, IsWellFormed,
  term_of, term_view, log_term_at_lem,
}
use rv_key_value.Raft.Log.Merge.{merge_log, merged, append_loop_lem}
use rv_key_value.Raft.Log.Agreement.{IsConsecutive-merge_log, length-merge_log}

get_elem?-some : (xs : List LogEntry) (i : ℕ) → 0 < term_of (get_elem? xs i) → i < length xs
get_elem?-some [] i h = absurd (omega arith)
get_elem?-some (x ∷ xs) zero h = omega arith
get_elem?-some (x ∷ xs) (suc i) h = omega (arith, get_elem?-some xs i h)

module _ {D : Type 0} (n : RaftNode D) where
  -- Where the log shows a term it has an entry, or its compacted prefix ends.
  pub term_view-pos :
      (i : ℕ)
      → 0 < term_view n i
      → (n.last_included_index ≤ i) × (i ≤ n.last_included_index + length n.log)
  unfolding term_view
  term_view-pos i h = ground (arith, get_elem?-some n.log (i - suc n.last_included_index))

  -- The check of the previous entry.
  abbrev pub accepts : ℕ → ℕ → Bool
  accepts prev_index prev_term = prev_index == 0 || term_view n prev_index == prev_term

  -- The node and the flag after an accepted append: entries of the compacted prefix are skipped, and
  -- the others are merged behind the previous entry.
  abbrev pub accepted : ℕ → List LogEntry → RaftNode D × Bool
  accepted prev_index es =
      merged n (prev_index - n.last_included_index) (drop (n.last_included_index - prev_index) es)

  module _ (w : IsWellFormed n) where
    -- Entries of the compacted prefix are skipped.
    skip_lem :
        (k prev : ℕ) (es : List LogEntry)
        → prev + k ≡ n.last_included_index
        → append_loop n (suc prev) es ≡ append_loop n (suc n.last_included_index) (drop k es)
    unfolding append_loop
    skip_lem zero prev es e = let e' : prev ≡ n.last_included_index = omega arith in rw e'
    skip_lem (suc k) prev [] e = refl
    skip_lem (suc k) prev (x ∷ es) e =
        let skipped : leb (suc prev) n.last_included_index ≡ true = ground arith in
        let step : u64 (suc prev + 1) ≡ suc (suc prev) = omega (arith, w) in
        rw skipped (rw step (skip_lem k (suc prev) es (omega arith)))

    reach_lem :
        (prev : ℕ) (es : List LogEntry)
        → prev ≤ n.last_included_index + length n.log
        → append_loop n (u64 (prev + 1)) es
          ≡ append_loop n
              (suc (n.last_included_index + (prev - n.last_included_index)))
              (drop (n.last_included_index - prev) es)
    reach_lem prev es h =
        let next : u64 (prev + 1) ≡ suc prev = omega (arith, w) in
        elim (dec_le prev n.last_included_index) [
          | yes below ↦
              let end : n.last_included_index + (prev - n.last_included_index)
                  ≡ n.last_included_index =
                omega arith in
              rw (next, end) (skip_lem (n.last_included_index - prev) prev es (omega arith))
          | no above ↦
              let end : n.last_included_index + (prev - n.last_included_index) ≡ prev =
                omega arith in
              let all : n.last_included_index - prev ≡ 0 = omega arith in rw (next, end, all)
        ]

    loop_accepted :
        (prev : ℕ) (es : List LogEntry)
        → prev ≤ n.last_included_index + length n.log
        → append_loop n (u64 (prev + 1)) es ≡ ret (accepted prev es)
    loop_accepted prev es h =
        reach_lem prev es h
        ∙ append_loop_lem n w (prev - n.last_included_index)
            (drop (n.last_included_index - prev) es) (omega arith)

    -- appendEntriesToLogLocked never panics on a well-formed log; it refuses, or merges.
    pub append_entries_to_log_lem :
        (prev_index prev_term : ℕ) (es : List LogEntry)
        → (prev_index ≡ 0) ⊎ (0 < prev_term)
        → append_entries_to_log prev_index prev_term es n ≡ (
            if accepts prev_index prev_term
            then ret ((accepted prev_index es).0, (accepted prev_index es).1, none)
            else ret (n, false, some (log_inconsistent prev_index prev_term)))
    unfolding append_entries_to_log
    append_entries_to_log_lem prev_index prev_term es h = ground (
      arith,
      log_term_at_lem n w prev_index,
      loop_accepted prev_index es,
      term_view-pos prev_index,
    )

    -- An accepted append keeps the log well-formed, as long as the indices fit.
    pub accepted-IsWellFormed :
        (prev : ℕ) (es : List LogEntry)
        → prev ≤ n.last_included_index + length n.log
        → prev + length es + 1 < u64_mod
        → IsWellFormed (accepted prev es).0
    accepted-IsWellFormed prev es h fits =
        let p = prev - n.last_included_index in
        let rest = drop (n.last_included_index - prev) es in
        let tail = merge_log (suc (n.last_included_index + p)) (drop p n.log) rest in
        let at : suc n.last_included_index + length (take p n.log)
            ≡ suc (n.last_included_index + p) =
          omega (arith, length-take p n.log) in
        let shorter : length rest ≡ length es - (n.last_included_index - prev) =
          length-drop (n.last_included_index - prev) es in
        record {
          consecutive =
              IsConsecutive-append (suc n.last_included_index) (take p n.log) tail
                (IsConsecutive-take (suc n.last_included_index) p n.log w.consecutive)
                (IsConsecutive-at tail (sym at) (
                  IsConsecutive-merge_log (suc (n.last_included_index + p)) (drop p n.log) rest
                    (IsConsecutive-at (drop p n.log) (omega arith)
                      (IsConsecutive-drop (suc n.last_included_index) p n.log w.consecutive))
                    (omega (arith, w))));
          bounded = omega (
            arith,
            w,
            length-append (take p n.log) tail,
            length-take p n.log,
            length-drop p n.log,
            length-merge_log (suc (n.last_included_index + p)) (drop p n.log) rest,
          );
          included_applied = w.included_applied;
          applied_committed = w.applied_committed;
          commit_bounded = w.commit_bounded;
          progress = w.progress;
        }
