-- ===== src/Raft/Log/WellFormed.antt =====
-- Logs whose indices are the positions behind the compacted prefix, and what the index functions of
-- raft/node.go compute there.
use native.Mathlib.Decide.{dec_lt, dec_le}
use rv_key_value.Base.{
  ℕ, zero, suc, ◌+◌, ◌-◌, ◌≤◌, ◌<◌, Option, none, some, List, [], ◌∷◌, ◌++◌, ◌≡◌, refl, subst,
  arith, ltb, leb, ◌==◌, ◌&&◌, if◌then◌else◌, length, get_elem?, take, drop, get_elem?-total,
  u64_mod, u64, sub64, ret,
}
use rv_key_value.Raft.Types.{LogEntry}
use rv_key_value.Raft.Node.{RaftNode, is_set}
use rv_key_value.Raft.Log.{
  last_entry?, index_or, first_log_index, last_log_index, contains_log_index, entry_at, log_term_at,
  normalize_entries,
}

-- The entries have the indices `i`, `i + 1`, and so on.
abbrev pub IsConsecutive : ℕ → List LogEntry → Type 0
IsConsecutive i [] = Unit
IsConsecutive i (e ∷ es) = (e.index ≡ i) × IsConsecutive (suc i) es

-- What holds of a node's log and indices between two calls.
pub record IsWellFormed {D : Type 0} (n : RaftNode D) : Type 0 where
  pub consecutive : IsConsecutive (suc n.last_included_index) n.log
  pub bounded : n.last_included_index + length n.log + 1 < u64_mod
  pub included_applied : n.last_included_index ≤ n.last_applied
  pub applied_committed : n.last_applied ≤ n.commit_index
  pub commit_bounded : n.commit_index + 1 < u64_mod
  pub progress : is_set n.next_index ≡ is_set n.match_index

index-last_entry? :
    (i : ℕ) (l : List LogEntry)
    → IsConsecutive (suc i) l
    → index_or i (last_entry? l) ≡ i + length l
unfolding last_entry?
index-last_entry? i [] h = omega arith
index-last_entry? i (e ∷ []) h = omega arith
index-last_entry? i (e ∷ e' ∷ es) h = omega (arith, index-last_entry? (suc i) (e' ∷ es) h.1)

pub IsConsecutive-at : {i j : ℕ} (l : List LogEntry) → i ≡ j → IsConsecutive i l → IsConsecutive j l
IsConsecutive-at l e h = subst (λ k. IsConsecutive k l) e h

pub IsConsecutive-append :
    (i : ℕ) (l r : List LogEntry)
    → IsConsecutive i l
    → IsConsecutive (i + length l) r
    → IsConsecutive i (l ++ r)
IsConsecutive-append i [] r hl hr = IsConsecutive-at r (omega arith) hr
IsConsecutive-append i (e ∷ l) r hl hr =
    (hl.0, IsConsecutive-append (suc i) l r hl.1 (IsConsecutive-at r (omega arith) hr))

pub IsConsecutive-take :
    (i k : ℕ) (l : List LogEntry) → IsConsecutive i l → IsConsecutive i (take k l)
IsConsecutive-take i zero l h = tt
IsConsecutive-take i (suc k) [] h = tt
IsConsecutive-take i (suc k) (e ∷ l) h = (h.0, IsConsecutive-take (suc i) k l h.1)

pub IsConsecutive-drop :
    (i k : ℕ) (l : List LogEntry) → IsConsecutive i l → IsConsecutive (i + k) (drop k l)
IsConsecutive-drop i zero l h = IsConsecutive-at l (omega arith) h
IsConsecutive-drop i (suc k) [] h = tt
IsConsecutive-drop i (suc k) (e ∷ l) h =
    IsConsecutive-at (drop k l) (omega arith) (IsConsecutive-drop (suc i) k l h.1)

pub index-get_elem? :
    (i k : ℕ) (l : List LogEntry) {e : LogEntry}
    → IsConsecutive i l
    → get_elem? l k ≡ some e
    → e.index ≡ i + k
index-get_elem? i k [] h found = cc
index-get_elem? i zero (e ∷ l) h found = ground arith
index-get_elem? i (suc k) (e ∷ l) h found = omega (arith, index-get_elem? (suc i) k l h.1 found)

-- normalizeEntries numbers the entries consecutively, unless an index wraps around.
pub IsConsecutive-normalize_entries :
    (i : ℕ) (l : List LogEntry) → i + length l < u64_mod → IsConsecutive i (normalize_entries i l)
unfolding normalize_entries
IsConsecutive-normalize_entries i [] h = tt
IsConsecutive-normalize_entries i (e ∷ l) h =
    let e : u64 (i + 1) ≡ suc i = omega arith in
    (refl, rw e (IsConsecutive-normalize_entries (suc i) l (omega arith)))

pub length-normalize_entries :
    (i : ℕ) (l : List LogEntry) → length (normalize_entries i l) ≡ length l
unfolding normalize_entries
length-normalize_entries i [] = refl
length-normalize_entries i (e ∷ l) = omega (arith, length-normalize_entries (u64 (i + 1)) l)

module _ {D : Type 0} (n : RaftNode D) (w : IsWellFormed n) where
  pub first_log_index_lem : first_log_index n ≡ suc n.last_included_index
  unfolding first_log_index
  first_log_index_lem = omega (arith, w)

  pub last_log_index_lem : last_log_index n ≡ n.last_included_index + length n.log
  unfolding last_log_index
  last_log_index_lem = index-last_entry? n.last_included_index n.log w.consecutive

  pub contains_log_index_lem :
      (i : ℕ)
      → contains_log_index n i
        ≡ (ltb n.last_included_index i && leb i (n.last_included_index + length n.log))
  unfolding contains_log_index
  contains_log_index_lem i = ground (arith, w, last_log_index_lem)

  -- A read inside the log finds an entry, and does not panic.
  pub entry_at_lem :
      (i : ℕ)
      → n.last_included_index < i
      → i ≤ n.last_included_index + length n.log
      → (e : LogEntry) × (get_elem? n.log (i - suc n.last_included_index) ≡ some e)
        × (entry_at n i ≡ ret e)
  unfolding entry_at
  entry_at_lem i low high =
      let (e, found) = get_elem?-total n.log (i - suc n.last_included_index) (omega arith) in
      let position : sub64 i (u64 (n.last_included_index + 1)) ≡ i - suc n.last_included_index =
        omega (arith, w) in
      (e, found, rw (position, found))

-- The term at an index as the log shows it: 0 where the node knows none.
abbrev pub term_of : Option LogEntry → ℕ
term_of none = 0
term_of (some e) = e.term

unfoldable pub term_view : {D : Type 0} → RaftNode D → ℕ → ℕ
term_view n i =
    if i == 0
    then 0
    else if i == n.last_included_index
    then n.last_included_term
    else if ltb i n.last_included_index
    then 0
    else term_of (get_elem? n.log (i - suc n.last_included_index))

get_elem?-beyond {ℓ} : {A : Type ℓ} (xs : List A) (i : ℕ) → length xs ≤ i → get_elem? xs i ≡ none
get_elem?-beyond [] i h = refl
get_elem?-beyond (x ∷ xs) zero h = absurd (omega arith)
get_elem?-beyond (x ∷ xs) (suc i) h = get_elem?-beyond xs i (omega arith)

module _ {D : Type 0} (n : RaftNode D) (w : IsWellFormed n) (i : ℕ) where
  log_term_at_inside :
      n.last_included_index < i
      → i ≤ n.last_included_index + length n.log
      → log_term_at n i ≡ ret (term_view n i)
  unfolding log_term_at term_view
  log_term_at_inside low high =
      let (e, found, read) = entry_at_lem n w i low high in
      ground (arith, contains_log_index_lem n w i, found, read)

  log_term_at_outside :
      ¬ ((n.last_included_index < i) × (i ≤ n.last_included_index + length n.log))
      → log_term_at n i ≡ ret (term_view n i)
  unfolding log_term_at term_view
  log_term_at_outside out =
      ground (
        arith,
        contains_log_index_lem n w i,
        get_elem?-beyond n.log (i - suc n.last_included_index),
      )

  -- On a well-formed log logTermAtLocked never panics, and returns the term that the log shows.
  pub log_term_at_lem : log_term_at n i ≡ ret (term_view n i)
  log_term_at_lem = elim (dec_lt n.last_included_index i) [
    | yes low ↦ elim (dec_le i (n.last_included_index + length n.log)) [
      | yes high ↦ log_term_at_inside low high
      | no above ↦ log_term_at_outside (λ b. above b.1)
    ]
    | no below ↦ log_term_at_outside (λ b. below b.0)
  ]
