-- ===== src/Raft/Log/Views.antt =====
-- The terms that a log shows after an accepted append.
use rv_key_value.Base.{
  ℕ, zero, suc, ◌+◌, ◌-◌, ◌≤◌, ◌<◌, List, [], ◌∷◌, ◌++◌, ◌≡◌, refl, ap, ◌∙◌, arith, length,
  get_elem?, take, drop, length-take, length-drop, get_elem?-take, get_elem?-append_left,
  get_elem?-append_right,
}
use rv_key_value.Raft.Types.{LogEntry}
use rv_key_value.Raft.Node.{RaftNode}
use rv_key_value.Raft.Log.WellFormed.{IsWellFormed, term_of, term_view}
use rv_key_value.Raft.Log.Merge.{merge_log}
use rv_key_value.Raft.Log.Agreement.{term-merge_log}
use rv_key_value.Raft.Log.Accept.{accepted}

pub get_elem?-drop : (d j : ℕ) (xs : List LogEntry) → get_elem? (drop d xs) j ≡ get_elem? xs (d + j)
get_elem?-drop zero j xs = let e : 0 + j ≡ j = omega arith in rw e
get_elem?-drop (suc d) j [] = refl
get_elem?-drop (suc d) j (x ∷ xs) =
    let e : suc d + j ≡ suc (d + j) = omega arith in rw e (get_elem?-drop d j xs)

-- Behind the compacted prefix a view is a read at a position.
pub term_view-position :
    {D : Type 0} (n : RaftNode D) (i : ℕ)
    → n.last_included_index < i
    → term_view n i ≡ term_of (get_elem? n.log (i - suc n.last_included_index))
unfolding term_view
term_view-position n i h = ground arith

-- A view depends on the log and on the end of the compacted prefix alone.
pub term_view_cong :
    {D : Type 0} (m n : RaftNode D) (i : ℕ)
    → m.log ≡ n.log
    → m.last_included_index ≡ n.last_included_index
    → m.last_included_term ≡ n.last_included_term
    → term_view m i ≡ term_view n i
unfolding term_view
term_view_cong m n i log index term = cc

module _ {D : Type 0} (n : RaftNode D) (w : IsWellFormed n) (prev : ℕ) (es : List LogEntry)
    (h : prev ≤ n.last_included_index + length n.log) where
  -- The log has the term of every sent entry behind the compacted prefix.
  pub accepted-term :
      (k : ℕ)
      → k < length es
      → n.last_included_index < suc (prev + k)
      → term_view (accepted n prev es).0 (suc (prev + k)) ≡ term_of (get_elem? es k)
  accepted-term k inside behind =
      let li = n.last_included_index in
      let p = prev - li in
      let d = li - prev in
      let j = k - d in
      let tail = merge_log (suc (li + p)) (drop p n.log) (drop d es) in
      let position : suc (prev + k) - suc li ≡ length (take p n.log) + j =
        omega (arith, length-take p n.log) in
      let source : d + j ≡ k = omega arith in
      let short : j < length (drop d es) = omega (arith, length-drop d es) in
      term_view-position (accepted n prev es).0 (suc (prev + k)) behind
      ∙ ap (λ (q : ℕ). term_of (get_elem? (take p n.log ++ tail) q)) position
      ∙ ap term_of (get_elem?-append_right (take p n.log) tail j)
      ∙ term-merge_log (suc (li + p)) j (drop p n.log) (drop d es) short
      ∙ ap term_of (get_elem?-drop d j es)
      ∙ ap (λ (q : ℕ). term_of (get_elem? es q)) source

  -- Up to the previous entry the log is the one that was there.
  pub accepted-before :
      (i : ℕ)
      → n.last_included_index < i
      → i ≤ prev
      → get_elem? (accepted n prev es).0.log (i - suc n.last_included_index)
        ≡ get_elem? n.log (i - suc n.last_included_index)
  accepted-before i behind before =
      let li = n.last_included_index in
      let p = prev - li in
      let tail = merge_log (suc (li + p)) (drop p n.log) (drop (li - prev) es) in
      get_elem?-append_left (take p n.log) tail (i - suc li) (omega (arith, length-take p n.log))
      ∙ get_elem?-take p (i - suc li) n.log (omega arith)
