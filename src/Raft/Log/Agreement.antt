-- ===== src/Raft/Log/Agreement.antt =====
-- What the merge of a leader's entries into a log leaves there.
use rv_key_value.Base.{
  ℕ, zero, suc, ◌+◌, ◌-◌, ◌≤◌, ◌<◌, false, List, [], ◌∷◌, ◌≡◌, refl, arith, ◌==◌, length, get_elem?,
  u64_mod, u64, Bool-cases, inl, inr,
}
use rv_key_value.Raft.Types.{LogEntry}
use rv_key_value.Raft.Log.{normalize_entries}
use rv_key_value.Raft.Log.WellFormed.{
  IsConsecutive, IsConsecutive-normalize_entries, length-normalize_entries, term_of,
}
use rv_key_value.Raft.Log.Merge.{merge_log, changes_log}

-- Numbering entries anew keeps their terms.
pub term-normalize_entries :
    (i k : ℕ) (es : List LogEntry)
    → term_of (get_elem? (normalize_entries i es) k) ≡ term_of (get_elem? es k)
unfolding normalize_entries
term-normalize_entries i k [] = refl
term-normalize_entries i zero (e ∷ es) = refl
term-normalize_entries i (suc k) (e ∷ es) = term-normalize_entries (u64 (i + 1)) k es

-- After a merge the log has the term of every sent entry at that entry's place.
pub term-merge_log :
    (i k : ℕ) (ls es : List LogEntry)
    → k < length es
    → term_of (get_elem? (merge_log i ls es) k) ≡ term_of (get_elem? es k)
unfolding merge_log
term-merge_log i k ls [] h = elim h [ ]
term-merge_log i k [] (e ∷ es) h = term-normalize_entries i k (e ∷ es)
term-merge_log i zero (l ∷ ls) (e ∷ es) h = elim (Bool-cases (l.term == e.term)) [
  | inl same ↦ rw same (ground arith)
  | inr differs ↦ rw differs (term-normalize_entries i zero (e ∷ es))
]
term-merge_log i (suc k) (l ∷ ls) (e ∷ es) h = elim (Bool-cases (l.term == e.term)) [
  | inl same ↦ rw same (term-merge_log (suc i) k ls es (omega arith))
  | inr differs ↦ rw differs (term-normalize_entries i (suc k) (e ∷ es))
]

pub IsConsecutive-merge_log :
    (i : ℕ) (ls es : List LogEntry)
    → IsConsecutive i ls
    → i + length es < u64_mod
    → IsConsecutive i (merge_log i ls es)
unfolding merge_log
IsConsecutive-merge_log i [] es h fits = IsConsecutive-normalize_entries i es fits
IsConsecutive-merge_log i (l ∷ ls) [] h fits = h
IsConsecutive-merge_log i (l ∷ ls) (e ∷ es) h fits = elim (Bool-cases (l.term == e.term)) [
  | inl same ↦ rw same (h.0, IsConsecutive-merge_log (suc i) ls es h.1 (omega arith))
  | inr differs ↦ rw differs (IsConsecutive-normalize_entries i (e ∷ es) fits)
]

-- A merge leaves at least the sent entries, and no more than the longer of the two lists.
pub length-merge_log :
    (i : ℕ) (ls es : List LogEntry)
    → (length es ≤ length (merge_log i ls es))
      × (length (merge_log i ls es) ≤ length ls + (length es - length ls))
unfolding merge_log
length-merge_log i [] es = omega (arith, length-normalize_entries i es)
length-merge_log i (l ∷ ls) [] = omega arith
length-merge_log i (l ∷ ls) (e ∷ es) = elim (Bool-cases (l.term == e.term)) [
  | inl same ↦ rw same (omega (arith, length-merge_log (suc i) ls es))
  | inr differs ↦ rw differs (omega (arith, length-normalize_entries i (e ∷ es)))
]

-- A merge that reports no change changes nothing.
pub merge_log_unchanged :
    (i : ℕ) (ls es : List LogEntry) → changes_log ls es ≡ false → merge_log i ls es ≡ ls
unfolding merge_log changes_log normalize_entries
merge_log_unchanged i [] [] h = refl
merge_log_unchanged i [] (e ∷ es) h = cc
merge_log_unchanged i (l ∷ ls) [] h = refl
merge_log_unchanged i (l ∷ ls) (e ∷ es) h = ground (arith, merge_log_unchanged (suc i) ls es)

-- The terms of `ls` begin with those of `es`.
changes_log-normalize_entries :
    (i : ℕ) (es : List LogEntry) → changes_log (normalize_entries i es) es ≡ false
unfolding changes_log normalize_entries
changes_log-normalize_entries i [] = refl
changes_log-normalize_entries i (e ∷ es) =
    ground (arith, changes_log-normalize_entries (u64 (i + 1)) es)

-- Merging the same entries once more reports no change.
pub changes_log-merge_log :
    (i : ℕ) (ls es : List LogEntry) → changes_log (merge_log i ls es) es ≡ false
unfolding changes_log merge_log
changes_log-merge_log i [] es = changes_log-normalize_entries i es
changes_log-merge_log i (l ∷ ls) [] = refl
changes_log-merge_log i (l ∷ ls) (e ∷ es) = elim (Bool-cases (l.term == e.term)) [
  | inl same ↦ rw same (rw same (changes_log-merge_log (suc i) ls es))
  | inr differs ↦ rw differs (changes_log-normalize_entries i (e ∷ es))
]
