-- ===== src/Raft/Log.antt =====
-- raft/node.go: the log and its indices. An index of the log is `last_included_index` plus a
-- position; a read at a position that is not there panics.
pub mod WellFormed
pub mod Merge
pub mod Agreement
pub mod Accept
pub mod Views
use rv_key_value.Base.{
  ℕ, zero, suc, ◌+◌, Bool, true, false, Option, none, some, List, [], ◌∷◌, ◌++◌, ◌&&◌, not, ltb,
  leb, ◌==◌, if◌then◌else◌, get_elem?, take, slice_from, u64, sub64, Run, ret, expect, ◌>>=◌,
}
use rv_key_value.Raft.Types.{LogEntry, Error, log_inconsistent}
use rv_key_value.Raft.Node.{RaftNode}

-- `log[len(log)-1]`
unfoldable pub last_from : LogEntry → List LogEntry → LogEntry
last_from e [] = e
last_from e (e' ∷ es) = last_from e' es

unfoldable pub last_entry? : List LogEntry → Option LogEntry
unfolding last_from
last_entry? [] = none
last_entry? (e ∷ es) = some (last_from e es)

-- normalizeEntries
unfoldable pub normalize_entries : ℕ → List LogEntry → List LogEntry
normalize_entries start [] = []
normalize_entries start (e ∷ es) =
    record e { index = start } ∷ normalize_entries (u64 (start + 1)) es

-- The index and the term of the last entry, or those of the compacted prefix.
abbrev pub index_or : ℕ → Option LogEntry → ℕ
index_or i none = i
index_or i (some e) = e.index

abbrev pub term_or : ℕ → Option LogEntry → ℕ
term_or t none = t
term_or t (some e) = e.term

module _ {D : Type 0} where
  -- firstLogIndexLocked
  unfoldable pub first_log_index : RaftNode D → ℕ
  first_log_index n = u64 (n.last_included_index + 1)

  -- lastLogIndexLocked
  unfoldable pub last_log_index : RaftNode D → ℕ
  unfolding last_entry?
  last_log_index n = index_or n.last_included_index (last_entry? n.log)

  -- lastLogTermLocked
  unfoldable pub last_log_term : RaftNode D → ℕ
  unfolding last_entry?
  last_log_term n = term_or n.last_included_term (last_entry? n.log)

  -- containsLogIndexLocked
  unfoldable pub contains_log_index : RaftNode D → ℕ → Bool
  unfolding first_log_index
  contains_log_index n index = leb (first_log_index n) index && leb index (last_log_index n)

  -- `n.log[index-n.firstLogIndexLocked()]`
  unfoldable pub entry_at : RaftNode D → ℕ → Run LogEntry
  unfolding first_log_index
  entry_at n index = expect (get_elem? n.log (sub64 index (first_log_index n)))

  -- logTermAtLocked
  unfoldable pub log_term_at : RaftNode D → ℕ → Run ℕ
  log_term_at n index =
      if index == 0
      then ret 0
      else if index == n.last_included_index
      then ret n.last_included_term
      else if not (contains_log_index n index)
      then ret 0
      else do e ← entry_at n index; ret e.term

  -- cloneEntriesFromLocked
  unfoldable pub clone_entries_from : RaftNode D → ℕ → Run (List LogEntry)
  clone_entries_from n start =
      let start' = (if leb start n.last_included_index then first_log_index n else start) in
      if ltb (last_log_index n) start'
      then ret []
      else slice_from (sub64 start' (first_log_index n)) n.log

  -- The loop of appendEntriesToLogLocked; `index` is `next + uint64(i)`.
  unfoldable pub append_loop : RaftNode D → ℕ → List LogEntry → Run (RaftNode D × Bool)
  append_loop n index [] = ret (n, false)
  append_loop n index (entry ∷ rest) =
      let later = append_loop n (u64 (index + 1)) rest in
      let fresh = normalize_entries index (entry ∷ rest) in
      if leb index n.last_included_index
      then later
      else if contains_log_index n index
      then (do
        local ← entry_at n index
        if not (local.term == entry.term)
            then ret
                (record n { log = take (sub64 index (first_log_index n)) n.log ++ fresh }, true)
            else later)
      else ret (record n { log = n.log ++ fresh }, true)

  -- appendEntriesToLogLocked
  unfoldable pub append_entries_to_log :
      ℕ → ℕ → List LogEntry → RaftNode D → Run (RaftNode D × Bool × Option Error)
  append_entries_to_log prev_index prev_term entries n = do
    found ← if prev_index == 0 then ret prev_term else log_term_at n prev_index
    if not (found == prev_term)
        then ret (n, false, some (log_inconsistent prev_index prev_term))
        else do
          (n', changed) ← append_loop n (u64 (prev_index + 1)) entries
          ret (n', changed, none)
