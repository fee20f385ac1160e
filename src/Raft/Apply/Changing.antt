-- ===== src/Raft/Apply/Changing.antt =====
-- Applying a membership change keeps a node well-formed, and its log.
use rv_key_value.Base.{
  ◌&&◌, sym, inl, inr, eq_iff, inl, str_eq, Bool-cases, ◌++◌, ◌∷◌, [], ◌≢◌, ℕ, ◌≤◌, ◌<◌, String,
  true, Option, none, some, ◌≡◌, refl, ap, ◌∙◌, arith, ret, Returns, Returns-map, Returns-bind,
}
use rv_key_value.Base.Map.{Map}
use rv_key_value.Raft.Types.{StableStore, Error}
use rv_key_value.Raft.Membership.{
  MembershipChange, MembershipChangeType, add_peer, remove_peer as remove_type, other,
}
use rv_key_value.Raft.Node.{RaftNode, is_set}
use rv_key_value.Raft.Node.Persist.{persist-keeps}
use rv_key_value.Raft.Log.WellFormed.{IsWellFormed}
use rv_key_value.Raft.Commit.{advance_commit}
use rv_key_value.Raft.Commit.Leader.{advance_commit-Committed, Committed-IsWellFormed}
use rv_key_value.Raft.Vote.Rules.{contains_peer_iff}
use rv_key_value.Raft.Apply.Members.{
  SameMembers, Adds, Removes, ChangesMembers, Adds-itself, Adds-known, Adds-new, Adds-same,
  Removes-same, remove_member-Removes,
}
use rv_key_value.Raft.Apply.{
  is_leader, contains_peer, track_peer, erase?, add_member, remove_member,
  apply_membership_change_locked, mark_applied, mark_and_persist, apply_committed_membership_change,
}

is_set-erase? : (k : String) (o : Option (Map ℕ)) → is_set (erase? k o) ≡ is_set o
is_set-erase? k none = refl
is_set-erase? k (some m) = refl

is_set_lem : {A : Type 0} (o : Option A) → is_set o ≡ true → (a : A) × (o ≡ some a)
is_set_lem none h = cc
is_set_lem (some a) h = (a, refl)

module _ {D : Type 0} (n : RaftNode D) where
  -- A well-formed node with the log and the applied index of `n`.
  pub record Changed (m : RaftNode D) : Type 0 where
    pub shape : IsWellFormed m
    pub log : m.log ≡ n.log
    pub included : m.last_included_index ≡ n.last_included_index
    pub done : m.last_applied ≡ n.last_applied
    pub commit : n.commit_index ≤ m.commit_index

  -- A well-formed node with the log of `n`, which has applied the entries up to `i`.
  pub record AppliedTo (i : ℕ) (m : RaftNode D) : Type 0 where
    pub shape : IsWellFormed m
    pub log : m.log ≡ n.log
    pub included : m.last_included_index ≡ n.last_included_index
    pub done : m.last_applied ≡ i
    pub commit : n.commit_index ≤ m.commit_index

  -- A well-formed node with the log of `n`.
  abbrev pub KeepsLog : RaftNode D → Type 0
  KeepsLog m = IsWellFormed m × (m.log ≡ n.log) × (m.last_included_index ≡ n.last_included_index)

  track_peer-Changed :
      (peer_id : String) (m : RaftNode D)
      → is_set m.next_index ≡ true
      → is_set m.match_index ≡ true
      → Changed m
      → Returns (track_peer peer_id m) (λ k. Changed k × SameMembers m k)
  unfolding track_peer
  track_peer-Changed peer_id m next match c =
      let (ni, en) = is_set_lem m.next_index next in
      let (mi, em) = is_set_lem m.match_index match in
      rw (en, em) (ground (arith, c), (refl, refl, refl))

  add_member-Changed :
      (peer_id : String) (m : RaftNode D)
      → Changed m
      → Returns (add_member peer_id m) (λ k. Changed k × Adds peer_id m k)
  unfolding add_member
  add_member-Changed peer_id m c =
      let P = λ (k : RaftNode D). Changed k × Adds peer_id m k in
      let m1 = record m { peers = m.peers ++ peer_id ∷ [] } in
      let c1 : Changed m1 = ground (arith, c) in
      elim (Bool-cases (str_eq peer_id m.id)) [
        | inl itself ↦
            rw itself (ground (arith, c), Adds-itself peer_id m ((eq_iff peer_id m.id).0 itself))
        | inr another ↦
            let apart : peer_id ≢ m.id =
              λ e. let bad = sym another ∙ (eq_iff peer_id m.id).1 e in cc in
            rw another (elim (Bool-cases (contains_peer m.peers peer_id)) [
              | inl known ↦
                  rw known
                    (c, Adds-known peer_id m apart ((contains_peer_iff m.peers peer_id).0 known))
              | inr new ↦
                  rw new
                    (elim (Bool-cases
                      (is_leader m.state && is_set m.next_index && is_set m.match_index)) [
                        | inr plain ↦ rw plain (c1, Adds-new peer_id m apart)
                        | inl leads ↦ rw leads (
                            Returns-map (track_peer peer_id m1)
                              (track_peer-Changed peer_id m1 (ground (arith, leads))
                                (ground (arith, leads)) c1)
                              (λ k (ck, same).
                                (ck, Adds-same peer_id m m1 k same (Adds-new peer_id m apart))))
                      ])
            ])
      ]

  remove_member-Changed :
      (peer_id : String) (m : RaftNode D) → Changed m → Changed (remove_member peer_id m)
  unfolding remove_member
  remove_member-Changed peer_id m c =
      ground (arith, c, is_set-erase? peer_id m.next_index, is_set-erase? peer_id m.match_index)

  advance_commit-Changed :
      (m : RaftNode D) → Changed m → Returns (advance_commit m) (λ k. Changed k × SameMembers m k)
  advance_commit-Changed m c =
      Returns-map (advance_commit m) (advance_commit-Committed m c.shape) (λ k d. (
        record {
          shape = Committed-IsWellFormed m k d c.shape;
          log = ap (λ z. z.log) d.same ∙ c.log;
          included = ap (λ z. z.last_included_index) d.same ∙ c.included;
          done = ap (λ z. z.last_applied) d.same ∙ c.done;
          commit = omega (arith, c, d);
        },
        (ap (λ z. z.id) d.same, ap (λ z. z.self_member) d.same, ap (λ z. z.peers) d.same),
      ))

  configured_Changed : IsWellFormed n → Changed (record n { membership_configured = true })
  configured_Changed w = ground (arith, w)

  by_type :
      (t : MembershipChangeType) (p : String)
      → IsWellFormed n
      → let change : MembershipChange = record { change_type = t; peer_id = p } in
        Returns
          (apply_membership_change_locked change n)
          (λ r. Changed r.0 × ChangesMembers change n r)
  unfolding apply_membership_change_locked
  by_type add_peer p w =
      let n0 = record n { membership_configured = true } in
      let P = λ (r : RaftNode D × Option Error). Changed r.0 × ((r.1 ≡ none) × Adds p n r.0) in
      Returns-bind (λ m. Changed m × Adds p n0 m) P (add_member p n0) _
        (add_member-Changed p n0 (configured_Changed w))
        (λ m1 (c1, adds).
          Returns-bind (λ m. Changed m × SameMembers m1 m) P (advance_commit m1)
            (λ m. ret (m, none)) (advance_commit-Changed m1 c1)
            (λ m (c, same). (c, (refl, Adds-same p n m1 m same adds))))
  by_type remove_type p w =
      let n0 = record n { membership_configured = true } in
      let P = λ (r : RaftNode D × Option Error). Changed r.0 × ((r.1 ≡ none) × Removes p n r.0) in
      Returns-bind (λ m. Changed m × SameMembers (remove_member p n0) m) P
        (advance_commit (remove_member p n0)) (λ m. ret (m, none))
        (advance_commit-Changed (remove_member p n0)
          (remove_member-Changed p n0 (configured_Changed w)))
        (λ m (c, same).
          (c, (refl, Removes-same p n (remove_member p n0) m same (remove_member-Removes p n0))))
  by_type (other t) p w = (configured_Changed w, (refl, (refl, refl, refl)))

  -- applyMembershipChangeLocked does not panic on a well-formed node: no progress table that it
  -- writes to is nil. It leaves a well-formed node with the same log and the same applied index,
  -- whose commit index is not lower. After an addition the members are those before and the peer,
  -- and after a removal those before without the peer, where the node itself counts while it
  -- belongs to the cluster, and its peers do. Another type of change is an error, and leaves the
  -- members as they were.
  pub apply_membership_change_locked-Changed :
      (change : MembershipChange)
      → IsWellFormed n
      → Returns
          (apply_membership_change_locked change n)
          (λ r. Changed r.0 × ChangesMembers change n r)
  apply_membership_change_locked-Changed change w = by_type change.change_type change.peer_id w

module _ {D : Type 0} ⦃stable : StableStore D⦄ (n : RaftNode D) (w : IsWellFormed n) where
  mark_applied-AppliedTo :
      (i : ℕ) (m : RaftNode D)
      → Changed n m
      → n.last_applied < i
      → i ≤ n.commit_index
      → (d : Option D) → AppliedTo n i (record (mark_applied i m) { store = d })
  unfolding mark_applied
  mark_applied-AppliedTo i m c above below d = ground (arith, c)

  -- What is left of a membership change, behind the part that may fail.
  mark_and_persist-AppliedTo :
      (err : Option Error) (i : ℕ) (m : RaftNode D)
      → Changed n m
      → n.last_applied < i
      → i ≤ n.commit_index
      → KeepsLog n (mark_and_persist err i m).0
        × ((mark_and_persist err i m).1 ≡ none → AppliedTo n i (mark_and_persist err i m).0)
  unfolding mark_and_persist
  mark_and_persist-AppliedTo (some e) i m c above below = ((c.shape, c.log, c.included), λ f. cc)
  mark_and_persist-AppliedTo none i m c above below =
      let a =
        persist-keeps (AppliedTo n i) (mark_applied i m)
          (mark_applied-AppliedTo i m c above below) in
      ((a.shape, a.log, a.included), λ f. a)

  pub apply_committed_membership_change-AppliedTo :
      (change : MembershipChange) (i : ℕ)
      → n.last_applied < i
      → i ≤ n.commit_index
      → Returns
          (apply_committed_membership_change change i n)
          (λ r. KeepsLog n r.0 × (r.1 ≡ none → AppliedTo n i r.0))
  unfolding apply_committed_membership_change
  apply_committed_membership_change-AppliedTo change i above below =
      Returns-bind (λ r. Changed n r.0) (λ r. KeepsLog n r.0 × (r.1 ≡ none → AppliedTo n i r.0)) _ _
        (Returns-map {Q = λ r. Changed n r.0} (apply_membership_change_locked change n)
          (apply_membership_change_locked-Changed n change w) (λ r (c, members). c))
        (λ r c. mark_and_persist-AppliedTo r.1 i r.0 c above below)

  pub mark_applied-next :
      (i : ℕ) → n.last_applied < i → i ≤ n.commit_index → AppliedTo n i (mark_applied i n)
  unfolding mark_applied
  mark_applied-next i above below = ground (arith, w)
