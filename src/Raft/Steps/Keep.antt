-- ===== src/Raft/Steps/Keep.antt =====
-- No operation panics on a well-formed node, and each leaves a well-formed later state of it.
use rv_key_value.Base.{
  none, false, Returns-map, subst, sym, Option, ℕ, suc, ◌+◌, ◌≤◌, ◌<◌, Bool, true, Option, [], ◌∷◌,
  ◌++◌, ◌≡◌, ◌⊎◌, inl, inr, refl, arith, ltb, leb, ◌==◌, ◌||◌, not, length, length-append, u64,
  u64_mod, Returns, Returns-bind, Returns-if, Bool-cases, Option-cases, if-both,
}
use rv_key_value.Raft.Types.{Bytes, StableStore, Error, RequestVoteRequest, RequestVoteResponse}
use rv_key_value.Raft.Membership.{MembershipJson}
use rv_key_value.Raft.Node.{
  RaftNode, persist, become_follower, become_candidate, is_candidate, is_leader, is_member,
}
use rv_key_value.Raft.Log.{last_log_index}
use rv_key_value.Raft.Log.Accept.{term_view-pos}
use rv_key_value.Raft.Apply.Compaction.{compacting-IsWellFormed, compact-Returns}
use rv_key_value.Raft.Log.WellFormed.{IsWellFormed, IsConsecutive-append, last_log_index_lem}
use rv_key_value.Raft.Keeps.{
  Follows, Stays, elected, elected-Stays, Stays-Follows, persist-Stays, persist-Follows,
}
use rv_key_value.Raft.Vote.{request_vote, decide_vote, step_down_for_higher_term}
use rv_key_value.Raft.Vote.Granting.{decide_vote-Follows}
use rv_key_value.Raft.Commit.Leader.{init_leader_progress-Stays, advance_commit-Stays}
use rv_key_value.Raft.Append.{append_local, local_entry, refuse_local}
use rv_key_value.Raft.Append.Outcomes.{store-IsWellFormed}
use rv_key_value.Raft.Apply.{mark_applied, compact}
use rv_key_value.Raft.Election.{promote_candidate}

module _ {D : Type 0} ⦃stable : StableStore D⦄ (n : RaftNode D) (w : IsWellFormed n) where
  pub still : Follows n n
  still = Stays-Follows n n (w, record { term = refl; vote = refl; id = refl; role = refl })

  pub become_follower-Follows : (term : ℕ) → Follows n (become_follower term n).0
  unfolding become_follower
  become_follower-Follows term = persist-Follows n _ (ground (arith, w))

  pub become_candidate-Follows : n.current_term + 1 < u64_mod → Follows n (become_candidate n).0
  unfolding become_candidate
  become_candidate-Follows fits =
      persist-Follows n _ (record {
        shape = ground (arith, w);
        votes = inl (omega arith);
        name = refl;
        role = λ e. cc;
      })

  pub step_down-Follows : (term : ℕ) → Follows n (step_down_for_higher_term term n).0
  unfolding step_down_for_higher_term
  step_down-Follows term = elim (Bool-cases (leb term n.current_term)) [
    | inl low ↦ rw low still
    | inr high ↦ rw high (
        persist-Follows n _ (record {
          shape = ground (arith, w);
          votes = inl (ground arith);
          name = refl;
          role = λ e. cc;
        }))
  ]

  pub request_vote-Follows : (req : RequestVoteRequest) → Follows n (request_vote req n).0
  unfolding request_vote
  request_vote-Follows req = elim (Bool-cases (ltb req.term n.current_term)) [
    | inl stale ↦ rw stale still
    | inr current ↦
        let decided = decide_vote-Follows req n w (ground arith) in
        let P = λ (r : RaftNode D × RequestVoteResponse × Option Error). Follows n r.0 in
        rw current (
          if-both P (not n.self_member) _ _ still (
            if-both P (not (is_member n req.candidate_id)) _ _ still
              (if-both P (decide_vote req n).2 _ _ (persist-Follows n _ decided) decided)))
  ]

  -- promoteCandidate does nothing, or makes a candidate of that very term a leader.
  abbrev pub Promoted : ℕ → RaftNode D × Bool × Option Error → Type 0
  Promoted term r =
      ((r.0 ≡ n) × (r.1 ≡ false)) ⊎ ((n.current_term ≡ term) × (r.1 ≡ true) × Stays (elected n) r.0)

  pub promote_candidate_lem : (term : ℕ) → Returns (promote_candidate term n) (Promoted term)
  unfolding promote_candidate
  promote_candidate_lem term =
      let b = not (is_candidate n.state) || not (n.current_term == term) || not n.self_member in
      elim (Bool-cases b) [
        | inl stays ↦ rw stays (inl (refl, refl))
        | inr rises ↦
            let same : n.current_term ≡ term = ground arith in
            rw rises (
              Returns-bind (Stays (elected n)) (Promoted term) _ _
                (init_leader_progress-Stays (elected n) (elected n) (elected-Stays n w))
                (λ m s. inr (same, refl, persist-Stays (elected n) m s)))
      ]

  pub promote_candidate-Follows :
      (term : ℕ)
      → Returns
          (promote_candidate term n)
          (λ r. Follows n r.0 ⊎ ((n.current_term ≡ term) × (r.1 ≡ true) × Follows (elected n) r.0))
  promote_candidate-Follows term =
      Returns-map (promote_candidate term n) (promote_candidate_lem term) (λ r p. elim p [
        | inl (e, f) ↦ inl (subst (Follows n) (sym e) still)
        | inr (same, t, s) ↦ inr (same, t, Stays-Follows (elected n) r.0 s)
      ])

  -- The node with one more entry of its own.
  appended_IsWellFormed :
      (command : Bytes)
      → n.last_included_index + length n.log + 2 < u64_mod
      → IsWellFormed (record n { log = n.log ++ local_entry command n ∷ [] })
  appended_IsWellFormed command fits =
      let position : u64 (last_log_index n + 1) ≡ suc n.last_included_index + length n.log =
        rw (last_log_index_lem n w) (omega arith) in
      record {
        consecutive =
            IsConsecutive-append (suc n.last_included_index) n.log (local_entry command n ∷ [])
              w.consecutive (position, tt);
        bounded = omega (arith, length-append n.log (local_entry command n ∷ []));
        included_applied = w.included_applied;
        applied_committed = w.applied_committed;
        commit_bounded = w.commit_bounded;
        progress = w.progress;
      }

  -- AppendLocal leaves a later state of the node, and the entry that it returns without an error is the
  -- node's next one.
  pub append_local_lem :
      ⦃json : MembershipJson⦄ (command : Bytes)
      → n.last_included_index + length n.log + 2 < u64_mod
      → Returns
          (append_local command n)
          (λ r. Follows n r.0 × (r.2 ≡ none → r.1 ≡ local_entry command n))
  unfolding append_local
  append_local_lem ⦃json⦄ command fits = elim (Option-cases (refuse_local command n)) [
    | inr (err, e) ↦ rw (e, append_local) (still, λ f. cc)
    | inl e ↦
        let n1 = record n { log = n.log ++ local_entry command n ∷ [] } in
        let s1 : Stays n n1 = (
          appended_IsWellFormed command fits,
          record { term = refl; vote = refl; id = refl; role = refl },
        ) in
        rw (e, append_local)
          (Returns-bind (Stays n) (λ r. Follows n r.0 × (r.2 ≡ none → r.1 ≡ local_entry command n))
            _ _ (Returns-if (Stays n) (is_leader n.state) _ _ (advance_commit-Stays n n1 s1) s1)
            (λ m s. (Stays-Follows n (persist m).0 (persist-Stays n m s), λ f. refl)))
  ]

  pub append_local-Follows :
      ⦃json : MembershipJson⦄ (command : Bytes)
      → n.last_included_index + length n.log + 2 < u64_mod
      → Returns (append_local command n) (λ r. Follows n r.0)
  append_local-Follows ⦃json⦄ command fits =
      Returns-map (append_local command n) (append_local_lem command fits) (λ r h. h.0)

  pub mark_applied-Follows : (index : ℕ) → index ≤ n.commit_index → Follows n (mark_applied index n)
  unfolding mark_applied
  mark_applied-Follows index h = record {
    shape = ground (arith, w);
    votes = ground arith;
    name = ground arith;
    role = ground arith;
  }

  pub compact-Follows : (snapshot : Bytes) → Returns (compact snapshot n) (λ r. Follows n r.0)
  compact-Follows snapshot = compact-Returns n w snapshot (Follows n) still (λ high known d.
      record {
        shape =
            store-IsWellFormed d
              (compacting-IsWellFormed n w snapshot (term_view-pos n n.last_applied known).1);
        votes = inr (refl, inr refl);
        name = refl;
        role = λ e. (e, refl);
      })
