-- ===== src/Raft/Cluster/Ballots.antt =====
-- Every vote of a cluster is remembered by the node that cast it, and no node casts two in a term.
use rv_key_value.Base.{
  ℕ, suc, ◌+◌, ◌<◌, String, none, List, ◌∷◌, ◌≡◌, ◌≢◌, ◌⊎◌, inl, inr, sym, ap, ◌∙◌, subst, arith,
  Has, eq_iff, Bool-cases, ret, u64, u64_mod, if-both,
}
use rv_key_value.Raft.Types.{State, StableStore, RequestVoteRequest}
use rv_key_value.Raft.Membership.{MembershipJson}
use rv_key_value.Raft.Node.{RaftNode, become_candidate}
use rv_key_value.Raft.Node.Persist.{current_term-persist, voted_for-persist}
use rv_key_value.Raft.Vote.{request_vote}
use rv_key_value.Raft.Vote.Granting.{request_vote_lem}
use rv_key_value.Raft.Keeps.{KeepsVote}
use rv_key_value.Raft.Steps.{Operation, stand, vote, perform, IsAllowed}
use rv_key_value.Raft.Cluster.{Ballot, put, cast, IsNamed}

-- The node's term is past the one of a vote, or it is that term and the node remembers the vote.
abbrev pub Remembers : {D : Type 0} → RaftNode D → ℕ → String → Type 0
Remembers n t k = (t < n.current_term) ⊎ ((n.current_term ≡ t) × (n.voted_for ≡ k))

Remembers-KeepsVote :
    {D : Type 0} (n m : RaftNode D) (t : ℕ) (k : String)
    → k ≢ ""
    → KeepsVote n m
    → Remembers n t k
    → Remembers m t k
Remembers-KeepsVote n m t k named v r = ground arith

returned : {A : Type 0} (a b : A) → ret a ≡ ret b → a ≡ b
returned a b e = cc

abbrev pub ballot : ℕ → String → String → Ballot
ballot t x k = record { term = t; voter = x; candidate = k }

module _ {D : Type 0} ⦃stable : StableStore D⦄ ⦃json : MembershipJson⦄ where
  -- Every vote in the list, also a new one, is remembered by its voter, and no voter has two in a term.
  pub record Kept (nodes : String → RaftNode D) (bs : List Ballot) : Type 0 where
    pub remembered :
        (t : ℕ) (x k : String) → Has (ballot t x k) bs → (k ≢ "") × Remembers (nodes x) t k
    pub once : (t : ℕ) (x a b : String) → Has (ballot t x a) bs → Has (ballot t x b) bs → a ≡ b

  -- What a step does to a node's votes: the list grows by the vote of the node, if at all.
  abbrev pub Casts : String → RaftNode D → List Ballot → List Ballot → Type 0
  Casts v m bs bs' =
      (b : Ballot)
      → Has b bs'
      → Has b bs
        ⊎ ((b.voter ≡ v)
            × (b.term ≡ m.current_term)
            × (b.candidate ≡ m.voted_for)
            × (b.candidate ≢ ""))

  put_cases :
      (nodes : String → RaftNode D) (v : String) (m : RaftNode D) (x : String)
      → ((x ≡ v) × (put v m nodes x ≡ m)) ⊎ ((x ≢ v) × (put v m nodes x ≡ nodes x))
  unfolding put
  put_cases nodes v m x = ground (arith, eq_iff x v)

  -- What held of every node, and holds of the changed one, holds after the change.
  pub put_all :
      (P : String → RaftNode D → Type 0) (nodes : String → RaftNode D) (v : String) (m : RaftNode D)
      → P v m
      → (x : String) → P x (nodes x)
      → P x (put v m nodes x)
  put_all P nodes v m new x old = elim (put_cases nodes v m x) [
    | inl (e, s) ↦ subst (P x) (sym s) (subst (λ y. P y m) (sym e) new)
    | inr (d, s) ↦ subst (P x) (sym s) old
  ]

  module _ (nodes : String → RaftNode D) (v : String) (m : RaftNode D) (bs bs' : List Ballot)
      (kept : Kept nodes bs) (keeps : KeepsVote (nodes v) m) (casts : Casts v m bs bs') where
    remembered_after :
        (t : ℕ) (x k : String) → Has (ballot t x k) bs' → (k ≢ "") × Remembers (put v m nodes x) t k
    remembered_after t x k h = elim (casts (ballot t x k) h) [
      | inl old ↦
          let (named, r) = kept.remembered t x k old in
          (
            named,
            elim (put_cases nodes v m x) [
              | inl (e, s) ↦
                  subst (λ z. Remembers z t k) (sym s)
                    (Remembers-KeepsVote (nodes v) m t k named keeps
                      (subst (λ y. Remembers (nodes y) t k) e r))
              | inr (d, s) ↦ subst (λ z. Remembers z t k) (sym s) r
            ],
          )
      | inr (e, et, ek, named) ↦ (
        named,
        elim (put_cases nodes v m x) [
          | inl (e', s) ↦ subst (λ z. Remembers z t k) (sym s) (inr (sym et, sym ek))
          | inr (d, s) ↦ absurd (d e)
        ],
      )
    ]

    -- A vote from before and the vote that is cast now, in the same term.
    once_more :
        (t : ℕ) (x a b : String)
        → (x ≡ v) × (t ≡ m.current_term) × (a ≡ m.voted_for)
        → Has (ballot t x b) bs
        → a ≡ b
    once_more t x a b (e, et, ea) h =
        let (named, r) = kept.remembered t x b h in
        let now =
          Remembers-KeepsVote (nodes v) m t b named keeps
            (subst (λ y. Remembers (nodes y) t b) e r) in
        ground (arith, now)

    pub Kept-put : Kept (put v m nodes) bs'
    Kept-put = record {
      remembered = remembered_after;
      once = λ t x a b ha hb. elim (casts (ballot t x a) ha) [
        | inl olda ↦ elim (casts (ballot t x b) hb) [
          | inl oldb ↦ kept.once t x a b olda oldb
          | inr (e, et, eb, named) ↦ sym (once_more t x b a (e, et, eb) olda)
        ]
        | inr (e, et, ea, named) ↦ elim (casts (ballot t x b) hb) [
          | inl oldb ↦ once_more t x a b (e, et, ea) oldb
          | inr (e', et', eb, named') ↦ ea ∙ sym eb
        ]
      ];
    }

  stand_Casts :
      (v : String) (n m : RaftNode D) (bs : List Ballot)
      → v ≢ ""
      → n.id ≡ v
      → n.current_term + 1 < u64_mod
      → (become_candidate n).0 ≡ m
      → Casts v m bs (ballot (suc n.current_term) v n.id ∷ bs)
  unfolding become_candidate
  stand_Casts v n m bs named own fits e b (inr old) = inl old
  stand_Casts v n m bs named own fits e b (inl new) =
      let n1 = record n {
        state = State.candidate;
        leader_id = "";
        next_index = none;
        match_index = none;
        current_term = u64 (n.current_term + 1);
        voted_for = n.id;
      } in
      let term : u64 (n.current_term + 1) ≡ m.current_term =
        sym (current_term-persist n1) ∙ ap (λ z. z.current_term) e in
      let who : n.id ≡ m.voted_for = sym (voted_for-persist n1) ∙ ap (λ z. z.voted_for) e in
      let plain : suc n.current_term ≡ u64 (n.current_term + 1) = omega arith in
      inr (
        ap (λ z. z.voter) new,
        ap (λ z. z.term) new ∙ plain ∙ term,
        ap (λ z. z.candidate) new ∙ who,
        λ z. named (sym own ∙ sym (ap (λ z. z.candidate) new) ∙ z),
      )

  vote_Casts :
      (v : String) (req : RequestVoteRequest) (n m : RaftNode D) (bs : List Ballot)
      → req.candidate_id ≢ ""
      → (request_vote req n).0 ≡ m
      → Casts v m bs (cast v (vote req) n bs)
  unfolding cast
  vote_Casts v req n m bs named e = elim (Bool-cases (request_vote req n).1.vote_granted) [
    | inl granted ↦
        let (t, c) = (request_vote_lem req n).2 granted in
        rw granted (λ b h. elim h [
          | inr old ↦ inl old
          | inl new ↦ inr (
            ap (λ z. z.voter) new,
            ap (λ z. z.term) new ∙ sym t ∙ ap (λ z. z.current_term) e,
            ap (λ z. z.candidate) new ∙ sym c ∙ ap (λ z. z.voted_for) e,
            λ z. named (sym (ap (λ z. z.candidate) new) ∙ z),
          )
        ])
    | inr denied ↦ rw denied (λ b h. inl h)
  ]

  pub cast-Casts :
      (v : String) (op : Operation) (n m : RaftNode D) (bs : List Ballot)
      → v ≢ ""
      → n.id ≡ v
      → IsNamed op
      → IsAllowed op n
      → perform op n ≡ ret m
      → Casts v m bs (cast v op n bs)
  unfolding perform cast
  cast-Casts v stand n m bs named own cand allowed e =
      stand_Casts v n m bs named own allowed (returned _ m e)
  cast-Casts v (vote req) n m bs named own cand allowed e =
      vote_Casts v req n m bs cand (returned _ m e)
  cast-Casts v _ n m bs named own cand allowed e = λ b h. inl h

  -- No vote is forgotten.
  pub cast-grows :
      (v : String) (op : Operation) (n : RaftNode D) (bs : List Ballot) (b : Ballot)
      → Has b bs
      → Has b (cast v op n bs)
  unfolding cast
  cast-grows v stand n bs b h = inr h
  cast-grows v (vote req) n bs b h =
      if-both (Has b) (request_vote req n).1.vote_granted _ _ (inr h) h
  cast-grows v _ n bs b h = h
