-- ===== src/Raft/Append/Leader.antt =====
-- The requests that a leader builds are valid ones.
use native.Mathlib.Decide.{dec_lt}
use rv_key_value.Base.{
  Returns-bind, Option-cases, ℕ, suc, ◌+◌, ◌-◌, ◌≤◌, ◌<◌, String, Option, none, some, ◌≡◌, inl, inr,
  refl, subst, arith, leb, if◌then◌else◌, length, length-drop, All, All-get_elem?, get_elem?-total,
  drop, drop-beyond, sub64, ret, ◌>>=◌, Returns,
}
use rv_key_value.Base.Map.{lookup?}
use rv_key_value.Raft.Types.{LogEntry, Error, AppendEntriesRequest}
use rv_key_value.Raft.Node.{RaftNode}
use rv_key_value.Raft.Log.{first_log_index, clone_entries_from}
use rv_key_value.Raft.Log.WellFormed.{
  IsWellFormed, IsConsecutive, IsConsecutive-at, IsConsecutive-drop, term_view, log_term_at_lem,
  first_log_index_lem, last_log_index_lem,
}
use rv_key_value.Raft.Log.Views.{term_view-position}
use rv_key_value.Raft.Append.{build_from, build_append_entries}
use rv_key_value.Raft.Append.Follower.{IsValid}

-- Every entry has a term, and the compacted prefix too, if there is one.
pub record HasTerms {D : Type 0} (n : RaftNode D) : Type 0 where
  pub entries : All (λ (e : LogEntry). 0 < e.term) n.log
  pub included : 0 < n.last_included_index → 0 < n.last_included_term

module _ {D : Type 0} (n : RaftNode D) where
  -- A request with the leader's own entries behind an index inside its log.
  pub record IsOwn (req : AppendEntriesRequest) : Type 0 where
    pub valid : IsValid req
    pub prev_term : req.prev_log_term ≡ term_view n req.prev_log_index
    pub entries : req.entries ≡ drop (req.prev_log_index - n.last_included_index) n.log
    pub numbered : IsConsecutive (suc req.prev_log_index) req.entries

  -- A leader's progress for a peer, if it is known, points into the log or right behind it.
  abbrev pub PointsInside : String → Type 0
  PointsInside peer_id =
      (next : ℕ)
      → lookup? peer_id n.next_index ≡ some next
      → next ≤ suc (n.last_included_index + length n.log)

module _ {D : Type 0} (n : RaftNode D) (w : IsWellFormed n) where
  inside_term :
      (i : ℕ)
      → HasTerms n
      → n.last_included_index < i
      → i ≤ n.last_included_index + length n.log
      → 0 < term_view n i
  inside_term i t low high =
      let k = i - suc n.last_included_index in
      let (e, found) = get_elem?-total n.log k (omega arith) in
      rw (term_view-position n i low, found)
        (All-get_elem? (λ (e : LogEntry). 0 < e.term) n.log k t.entries found)

  at_included : 0 < n.last_included_index → term_view n n.last_included_index ≡ n.last_included_term
  unfolding term_view
  at_included h = ground arith

  -- Where the log reaches, it shows a term.
  shows_term :
      (i : ℕ)
      → HasTerms n
      → 0 < i
      → n.last_included_index ≤ i
      → i ≤ n.last_included_index + length n.log
      → 0 < term_view n i
  shows_term i t pos low high = elim (dec_lt n.last_included_index i) [
    | yes behind ↦ inside_term i t behind high
    | no end ↦
        let e : n.last_included_index ≡ i = omega arith in
        subst (λ (j : ℕ). 0 < term_view n j) e
          (rw (at_included (omega arith)) (t.included (omega arith)))
  ]

  clone_entries_from_lem :
      (start : ℕ)
      → n.last_included_index < start
      → start ≤ suc (n.last_included_index + length n.log)
      → clone_entries_from n start ≡ ret (drop (start - suc n.last_included_index) n.log)
  unfolding clone_entries_from
  clone_entries_from_lem start low high =
      let position : sub64 start (suc n.last_included_index) ≡ start - suc n.last_included_index =
        omega (arith, w) in
      rw (first_log_index_lem n w, last_log_index_lem n w)
        (ground (arith, position, drop-beyond (start - suc n.last_included_index) n.log))

  -- The request whose entries begin at an index.
  build_from_lem :
      (next : ℕ)
      → n.last_included_index < next
      → next ≤ suc (n.last_included_index + length n.log)
      → build_from next n
        ≡ ret (record {
          term = n.current_term;
          leader_id = n.id;
          prev_log_index = next - 1;
          prev_log_term = term_view n (next - 1);
          entries = drop (next - 1 - n.last_included_index) n.log;
          leader_commit = n.commit_index;
        })
  unfolding build_from
  build_from_lem next low high =
      let prev : sub64 next 1 ≡ next - 1 = omega (arith, w) in
      let place : next - suc n.last_included_index ≡ next - 1 - n.last_included_index =
        omega arith in
      rw (prev, log_term_at_lem n w (next - 1), clone_entries_from_lem next low high, place) refl

  build_from-IsOwn :
      (next : ℕ)
      → HasTerms n
      → n.last_included_index < next
      → next ≤ suc (n.last_included_index + length n.log)
      → Returns (build_from next n) (IsOwn n)
  build_from-IsOwn next t low high =
      let k = next - 1 - n.last_included_index in
      let start : suc n.last_included_index + k ≡ suc (next - 1) = omega arith in
      rw (build_from_lem next low high) (record {
        valid = record {
          prev = elim (dec_lt 0 (next - 1)) [
            | yes pos ↦ inr (shows_term (next - 1) t pos (omega arith) (omega arith))
            | no start ↦ inl (omega arith)
          ];
          fits = omega (arith, w, length-drop k n.log);
        };
        prev_term = refl;
        entries = refl;
        numbered =
            IsConsecutive-at (drop k n.log) start
              (IsConsecutive-drop (suc n.last_included_index) k n.log w.consecutive);
      })

  -- BuildAppendEntries does not panic on a well-formed node. A request that it returns without an error
  -- is a valid one: its previous term is the one that the node shows at the previous index, and its
  -- entries are the node's own from there on up to the end of the log, numbered without a gap. Every
  -- entry of the node has a term, and its progress for the peer does not point past the end of its log.
  pub build_append_entries-IsOwn :
      (peer_id : String)
      → HasTerms n
      → PointsInside n peer_id
      → Returns (build_append_entries peer_id n) (λ r. r.1 ≡ none → IsOwn n r.0)
  unfolding build_append_entries
  build_append_entries-IsOwn peer_id t inside = elim (Option-cases (lookup? peer_id n.next_index)) [
    | inl unknown ↦ rw (unknown, build_append_entries, Returns) (λ e. cc)
    | inr (next, known) ↦
        let start = (if leb next n.last_included_index then first_log_index n else next) in
        let low : n.last_included_index < start = ground (arith, first_log_index_lem n w) in
        let high : start ≤ suc (n.last_included_index + length n.log) =
          ground (arith, first_log_index_lem n w, inside next known) in
        rw (known, build_append_entries)
          (Returns-bind (IsOwn n) (λ r. r.1 ≡ none → IsOwn n r.0) (build_from start n)
            (λ req. ret (req, none)) (build_from-IsOwn start t low high) (λ req own e. own))
  ]

  clone_entries_from-Returns : (start : ℕ) → Returns (clone_entries_from n start) (λ es. Unit)
  unfolding clone_entries_from
  clone_entries_from-Returns start =
      rw (first_log_index_lem n w, last_log_index_lem n w) (ground (arith, w))

  total_from :
      (next : ℕ)
      → Returns {A = AppendEntriesRequest × Option Error}
          (build_from next n >>= λ req. ret (req, none))
          (λ r. Unit)
  unfolding build_from
  total_from next = rw (log_term_at_lem n w (sub64 next 1)) (
      Returns-bind (λ req. Unit) (λ r. Unit) _ (λ req. ret (req, none))
        (Returns-bind (λ es. Unit) (λ req. Unit) (clone_entries_from n next) _
          (clone_entries_from-Returns next) (λ es h. tt))
        (λ req h. tt))

  -- BuildAppendEntries does not panic, whatever the progress is.
  pub build_append_entries-Returns :
      (peer_id : String) → Returns (build_append_entries peer_id n) (λ r. Unit)
  unfolding build_append_entries build_from
  build_append_entries-Returns peer_id = elim (Option-cases (lookup? peer_id n.next_index)) [
    | inl unknown ↦ rw (unknown, build_append_entries, Returns) tt
    | inr (next, known) ↦
        rw (known, build_append_entries)
          (total_from (if leb next n.last_included_index then first_log_index n else next))
  ]
