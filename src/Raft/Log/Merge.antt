-- ===== src/Raft/Log/Merge.antt =====
-- The append loop of raft/node.go against a merge of two lists that knows nothing of indices.
use native.Mathlib.Decide.{dec_lt}
use rv_key_value.Base.{
  ℕ, zero, suc, ◌+◌, ◌≤◌, ◌<◌, Bool, true, false, some, List, [], ◌∷◌, ◌++◌, ◌≡◌, refl, ap, subst,
  arith, ltb, leb, ◌==◌, if◌then◌else◌, length, get_elem?, take, drop, u64, sub64, ret, Bool-cases,
  inl, inr, get_elem?-total, lt→ltb, ltb_irrefl,
}
use rv_key_value.Raft.Types.{LogEntry}
use rv_key_value.Raft.Node.{RaftNode}
use rv_key_value.Raft.Log.{
  contains_log_index, first_log_index, entry_at, normalize_entries, append_loop,
}
use rv_key_value.Raft.Log.WellFormed.{IsWellFormed, contains_log_index_lem, first_log_index_lem}

-- The log behind some point, `ls`, and the entries that a leader sends for it: as long as the terms
-- agree the local entry stays, and from the first difference on the sent entries replace it.
unfoldable pub merge_log : ℕ → List LogEntry → List LogEntry → List LogEntry
merge_log i [] es = normalize_entries i es
merge_log i (l ∷ ls) [] = l ∷ ls
merge_log i (l ∷ ls) (e ∷ es) =
    let rest = merge_log (suc i) ls es in
    if l.term == e.term then l ∷ rest else normalize_entries i (e ∷ es)

-- Whether the merge changes the log.
unfoldable pub changes_log : List LogEntry → List LogEntry → Bool
changes_log [] [] = false
changes_log [] (e ∷ es) = true
changes_log (l ∷ ls) [] = false
changes_log (l ∷ ls) (e ∷ es) =
    let rest = changes_log ls es in if l.term == e.term then rest else true

pub merge_log-nil : (i : ℕ) (ls : List LogEntry) → merge_log i ls [] ≡ ls
unfolding merge_log normalize_entries
merge_log-nil i [] = refl
merge_log-nil i (l ∷ ls) = refl

pub changes_log-nil : (ls : List LogEntry) → changes_log ls [] ≡ false
unfolding changes_log
changes_log-nil [] = refl
changes_log-nil (l ∷ ls) = refl

take-drop : (p : ℕ) (xs : List LogEntry) → take p xs ++ drop p xs ≡ xs
take-drop zero xs = refl
take-drop (suc p) [] = refl
take-drop (suc p) (x ∷ xs) = ap (◌∷◌ x) (take-drop p xs)

drop-cons :
    (p : ℕ) (xs : List LogEntry) (x : LogEntry)
    → get_elem? xs p ≡ some x
    → drop p xs ≡ x ∷ drop (suc p) xs
drop-cons p [] x h = cc
drop-cons zero (y ∷ xs) x h = ground arith
drop-cons (suc p) (y ∷ xs) x h = drop-cons p xs x h

take-suc :
    (p : ℕ) (xs ys : List LogEntry) (x : LogEntry)
    → get_elem? xs p ≡ some x
    → take (suc p) xs ++ ys ≡ take p xs ++ x ∷ ys
take-suc p [] ys x h = cc
take-suc zero (y ∷ xs) ys x h = ground arith
take-suc (suc p) (y ∷ xs) ys x h = ap (◌∷◌ y) (take-suc p xs ys x h)

take-all : (xs : List LogEntry) → take (length xs) xs ≡ xs
take-all [] = refl
take-all (x ∷ xs) = ap (◌∷◌ x) (take-all xs)

drop-all : (xs : List LogEntry) → drop (length xs) xs ≡ []
drop-all [] = refl
drop-all (x ∷ xs) = drop-all xs

module _ {D : Type 0} (n : RaftNode D) where
  -- The node and the flag that the loop returns, from position `p` of the log on.
  abbrev pub merged : ℕ → List LogEntry → RaftNode D × Bool
  merged p es = (
    record n {
      log = take p n.log ++ merge_log (suc (n.last_included_index + p)) (drop p n.log) es;
    },
    changes_log (drop p n.log) es,
  )

  pub merged-nil : (p : ℕ) → merged p [] ≡ (n, false)
  merged-nil p = simp (merge_log-nil, changes_log-nil, take-drop)

  merged-past :
      (e : LogEntry) (es : List LogEntry)
      → merged (length n.log) (e ∷ es) ≡ (
        record n {
          log = n.log ++ normalize_entries (suc (n.last_included_index + length n.log)) (e ∷ es);
        },
        true,
      )
  unfolding merge_log changes_log
  merged-past e es = simp (take-all, drop-all)

  module _ (p : ℕ) (e local : LogEntry) (es : List LogEntry)
      (found : get_elem? n.log p ≡ some local) where
    merged-same : (local.term == e.term) ≡ true → merged p (e ∷ es) ≡ merged (suc p) es
    unfolding merge_log changes_log
    merged-same same =
        let step : n.last_included_index + suc p ≡ suc (n.last_included_index + p) = omega arith in
        let rest = merge_log (suc (suc (n.last_included_index + p))) (drop (suc p) n.log) es in
        rw (drop-cons p n.log local found) (rw same (rw (step, take-suc p n.log rest local found)))

    merged-conflict :
        (local.term == e.term) ≡ false
        → merged p (e ∷ es) ≡ (
          record n {
            log = take p n.log ++ normalize_entries (suc (n.last_included_index + p)) (e ∷ es);
          },
          true,
        )
    unfolding merge_log changes_log
    merged-conflict differs = rw (drop-cons p n.log local found) (rw differs)

module _ {D : Type 0} (n : RaftNode D) (w : IsWellFormed n) where
  -- What the index functions compute at position `p` of the log.
  module _ (p : ℕ) (here : p ≤ length n.log) where
    position_lem : sub64 (suc (n.last_included_index + p)) (first_log_index n) ≡ p
    position_lem = rw (first_log_index_lem n w) (omega (arith, w))

    read_lem :
        (local : LogEntry)
        → get_elem? n.log p ≡ some local
        → entry_at n (suc (n.last_included_index + p)) ≡ ret local
    unfolding entry_at
    read_lem local found = rw (position_lem) (rw found)

    contains_lem : contains_log_index n (suc (n.last_included_index + p)) ≡ ltb p (length n.log)
    contains_lem = rw (contains_log_index_lem n w) (ground (arith, w))

    step_lem :
        p < length n.log
        → u64 (suc (n.last_included_index + p) + 1) ≡ suc (suc (n.last_included_index + p))
    step_lem inside = omega (arith, w)

    behind_lem : leb (suc (n.last_included_index + p)) n.last_included_index ≡ false
    behind_lem = ground arith

  loop_inside :
      (p : ℕ) (e local : LogEntry) (es : List LogEntry)
      → p < length n.log
      → get_elem? n.log p ≡ some local
      → append_loop n (suc (suc (n.last_included_index + p))) es ≡ ret (merged n (suc p) es)
      → append_loop n (suc (n.last_included_index + p)) (e ∷ es) ≡ ret (merged n p (e ∷ es))
  unfolding append_loop
  loop_inside p e local es inside found later =
      let here : p ≤ length n.log = omega arith in
      rw (behind_lem p here, contains_lem p here, lt→ltb p (length n.log) inside)
        (rw (read_lem p here local found, step_lem p here inside, later)
          (elim (Bool-cases (local.term == e.term)) [
            | inl same ↦ rw (same) (rw (merged-same n p e local es found same))
            | inr differs ↦
                rw (differs)
                  (rw (position_lem p here, merged-conflict n p e local es found differs))
          ]))

  loop_past :
      (e : LogEntry) (es : List LogEntry)
      → append_loop n (suc (n.last_included_index + length n.log)) (e ∷ es)
        ≡ ret (merged n (length n.log) (e ∷ es))
  unfolding append_loop
  loop_past e es =
      let here : length n.log ≤ length n.log = omega arith in
      rw (behind_lem (length n.log) here, contains_lem (length n.log) here)
        (rw (ltb_irrefl (length n.log)) (rw (merged-past n e es)))

  -- The loop of appendEntriesToLogLocked is the merge at position `p` of the log.
  pub append_loop_lem :
      (p : ℕ) (es : List LogEntry)
      → p ≤ length n.log
      → append_loop n (suc (n.last_included_index + p)) es ≡ ret (merged n p es)
  unfolding append_loop
  append_loop_lem p [] h = rw (merged-nil n p)
  append_loop_lem p (e ∷ es) h = elim (dec_lt p (length n.log)) [
    | yes inside ↦
        let (local, found) = get_elem?-total n.log p inside in
        let step : n.last_included_index + suc p ≡ suc (n.last_included_index + p) = omega arith in
        loop_inside p e local es inside found (
          subst (λ k. append_loop n (suc k) es ≡ ret (merged n (suc p) es)) step
            (append_loop_lem (suc p) es inside))
    | no past ↦ let e' : p ≡ length n.log = omega arith in rw e' (loop_past e es)
  ]
