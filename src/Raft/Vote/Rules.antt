-- ===== src/Raft/Vote/Rules.antt =====
-- The rules of Raft for a vote, beside the code's own tests: who counts as a member, and which log is
-- at least as up to date.
use rv_key_value.Base.{
  ℕ, ◌≤◌, ◌<◌, ◌≡◌, ◌≢◌, ◌⊎◌, ◌↔◌, refl, arith, String, true, false, List, [], ◌∷◌, Has, eq_iff,
}
use rv_key_value.Raft.Types.{LogEntry, is_log_at_least_up_to_date}
use rv_key_value.Raft.Node.{RaftNode, contains_peer, is_member}
use rv_key_value.Raft.Log.{last_entry?, last_from, index_or, term_or, last_log_index, last_log_term}

-- The index and the term of the last of the entries, or what stands before them.
abbrev pub newest : List LogEntry → ℕ × ℕ → ℕ × ℕ
newest [] before = before
newest (e ∷ es) before = newest es (e.index, e.term)

-- A log that ends with the index and the term is at least as up to date as one that ends with the
-- others: its term is higher, or it is the same and the index is not lower.
abbrev pub IsUpToDate : ℕ × ℕ → ℕ × ℕ → Type 0
IsUpToDate (index, term) (own_index, own_term) =
    (own_term < term) ⊎ ((own_term ≡ term) × (own_index ≤ index))

newest-last :
    (e : LogEntry) (es : List LogEntry)
    → newest es (e.index, e.term) ≡ ((last_from e es).index, (last_from e es).term)
unfolding last_from
newest-last e [] = refl
newest-last e (e' ∷ es) = newest-last e' es

newest_lem :
    (l : List LogEntry) (i t : ℕ)
    → newest l (i, t) ≡ (index_or i (last_entry? l), term_or t (last_entry? l))
unfolding last_entry?
newest_lem [] i t = refl
newest_lem (e ∷ es) i t = newest-last e es

is_log_at_least_up_to_date-IsUpToDate :
    (index term own_index own_term : ℕ)
    → (is_log_at_least_up_to_date index term own_index own_term ≡ true)
      ↔ IsUpToDate (index, term) (own_index, own_term)
unfolding is_log_at_least_up_to_date
is_log_at_least_up_to_date-IsUpToDate index term own_index own_term = ground arith

pub contains_peer_iff : (ps : List String) (id : String) → (contains_peer ps id ≡ true) ↔ Has id ps
unfolding contains_peer
contains_peer_iff [] id = ground arith
contains_peer_iff (p ∷ ps) id = ground (arith, eq_iff p id, contains_peer_iff ps id)

module _ {D : Type 0} (n : RaftNode D) where
  -- The node itself while it belongs to the cluster; each of its peers; and, as long as no membership
  -- was configured, anyone.
  abbrev pub CountsAsMember : String → Type 0
  CountsAsMember id =
      ((id ≡ n.id) × (n.self_member ≡ true))
      ⊎ ((id ≢ n.id)
          × (Has id n.peers ⊎ ((n.self_member ≡ true) × (n.membership_configured ≡ false))))

  -- The end of the log, or of the compacted prefix.
  abbrev pub log_end : ℕ × ℕ
  log_end = newest n.log (n.last_included_index, n.last_included_term)

  pub is_member_iff : (id : String) → (is_member n id ≡ true) ↔ CountsAsMember id
  unfolding is_member
  is_member_iff id = ground (arith, eq_iff id n.id, contains_peer_iff n.peers id)

  pub log_end_iff :
      (index term : ℕ)
      → (is_log_at_least_up_to_date index term (last_log_index n) (last_log_term n) ≡ true)
        ↔ IsUpToDate (index, term) log_end
  unfolding last_log_index last_log_term
  log_end_iff index term =
      rw (newest_lem n.log n.last_included_index n.last_included_term)
        (is_log_at_least_up_to_date-IsUpToDate index term (last_log_index n) (last_log_term n))
