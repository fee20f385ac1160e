-- ===== src/Raft/Apply/Members.antt =====
-- Whom a membership change makes a member.
use rv_key_value.Base.{
  ◌≡◌, ◌≢◌, ◌⊎◌, ◌↔◌, inl, inr, sym, ◌∙◌, subst, arith, String, true, Option, none, some, List, [],
  ◌∷◌, ◌++◌, Has, str_eq, eq_iff, Bool-cases,
}
use rv_key_value.Raft.Types.{Error, unsupported}
use rv_key_value.Raft.Membership.{MembershipChange, add_peer, remove_peer as remove_type, other}
use rv_key_value.Raft.Node.{RaftNode, remove_peer}
use rv_key_value.Raft.Apply.{remove_member}

-- The membership of the node's view: the node itself while it belongs to the cluster, and its peers.
abbrev pub IsIn : {D : Type 0} → String → RaftNode D → Type 0
IsIn id n = ((id ≡ n.id) × (n.self_member ≡ true)) ⊎ ((id ≢ n.id) × Has id n.peers)

module _ {D : Type 0} where
  abbrev pub SameMembers : RaftNode D → RaftNode D → Type 0
  SameMembers n m = (m.id ≡ n.id) × (m.self_member ≡ n.self_member) × (m.peers ≡ n.peers)

  -- The members of `m` are those of `n`, and the peer.
  abbrev pub Adds : String → RaftNode D → RaftNode D → Type 0
  Adds peer_id n m = (id : String) → IsIn id m ↔ (IsIn id n ⊎ (id ≡ peer_id))

  -- The members of `m` are those of `n` without the peer.
  abbrev pub Removes : String → RaftNode D → RaftNode D → Type 0
  Removes peer_id n m = (id : String) → IsIn id m ↔ (IsIn id n × (id ≢ peer_id))

  -- What an accepted change makes of the members.
  abbrev pub ChangesMembers : MembershipChange → RaftNode D → RaftNode D × Option Error → Type 0
  ChangesMembers change n (m, err) = elim change.change_type [
    | add_peer ↦ (err ≡ none) × Adds change.peer_id n m
    | remove_type ↦ (err ≡ none) × Removes change.peer_id n m
    | other t ↦ (err ≡ some (unsupported t)) × SameMembers n m
  ]

Has-snoc_iff : (id p : String) (ps : List String) → Has id (ps ++ p ∷ []) ↔ (Has id ps ⊎ (id ≡ p))
Has-snoc_iff id p [] = ground arith
Has-snoc_iff id p (q ∷ ps) = ground (arith, Has-snoc_iff id p ps)

Has-remove_peer :
    (id p : String) (ps : List String) → Has id (remove_peer ps p) ↔ (Has id ps × (id ≢ p))
unfolding remove_peer
Has-remove_peer id p [] = ground arith
Has-remove_peer id p (q ∷ ps) = ground (arith, eq_iff q p, Has-remove_peer id p ps)

module _ {D : Type 0} where
  pub Adds-itself :
      (p : String) (n : RaftNode D) → p ≡ n.id → Adds p n (record n { self_member = true })
  Adds-itself p n e id = ground (arith, e, eq_iff id n.id)

  pub Adds-known : (p : String) (n : RaftNode D) → p ≢ n.id → Has p n.peers → Adds p n n
  Adds-known p n another known id = (
    λ h. inl h,
    λ h. elim h [
      | inl a ↦ a
      | inr e ↦ inr ((λ f. another (sym e ∙ f)), subst (λ x. Has x n.peers) (sym e) known)
    ],
  )

  pub Adds-new :
      (p : String) (n : RaftNode D) → p ≢ n.id → Adds p n (record n { peers = n.peers ++ p ∷ [] })
  Adds-new p n another id = ground (arith, another, eq_iff id n.id, Has-snoc_iff id p n.peers)

  pub Adds-same : (p : String) (n m k : RaftNode D) → SameMembers m k → Adds p n m → Adds p n k
  Adds-same p n m k (i, s, ps) adds id = rw (i, s, ps) (adds id)

  pub Removes-same :
      (p : String) (n m k : RaftNode D) → SameMembers m k → Removes p n m → Removes p n k
  Removes-same p n m k (i, s, ps) removes id = rw (i, s, ps) (removes id)

  pub remove_member-Removes : (p : String) (n : RaftNode D) → Removes p n (remove_member p n)
  unfolding remove_member
  remove_member-Removes p n id = elim (Bool-cases (str_eq p n.id)) [
    | inl itself ↦
        let e : p ≡ n.id = (eq_iff p n.id).0 itself in rw itself (ground (arith, e, eq_iff id n.id))
    | inr another ↦
        rw another
          (ground (arith, another, eq_iff p n.id, eq_iff id n.id, Has-remove_peer id p n.peers))
  ]
