-- ===== src/Raft/Keeps.antt =====
-- What an operation keeps of a node: its shape, its term, and the vote that it cast in that term.
use rv_key_value.Base.{◌<◌, ◌≡◌, ◌⊎◌, inr, refl, sym, ◌∙◌, arith}
use rv_key_value.Raft.Types.{StableStore, leader}
use rv_key_value.Raft.Node.{RaftNode, persist}
use rv_key_value.Raft.Node.Persist.{persist-keeps}
use rv_key_value.Raft.Log.WellFormed.{IsWellFormed}

-- A later state of a node has a higher term, or the same term and the vote that was cast in it.
abbrev pub KeepsVote : {D : Type 0} → RaftNode D → RaftNode D → Type 0
KeepsVote n m =
    (n.current_term < m.current_term)
    ⊎ ((n.current_term ≡ m.current_term) × ((n.voted_for ≡ "") ⊎ (m.voted_for ≡ n.voted_for)))

pub KeepsVote-refl : {D : Type 0} (n : RaftNode D) → KeepsVote n n
KeepsVote-refl n = inr (refl, inr refl)

pub KeepsVote-trans :
    {D : Type 0} (n m k : RaftNode D) → KeepsVote n m → KeepsVote m k → KeepsVote n k
KeepsVote-trans n m k p q = ground arith

module _ {D : Type 0} where
  -- What most operations of a node leave alone.
  pub record SameVote (n m : RaftNode D) : Type 0 where
    pub term : m.current_term ≡ n.current_term
    pub vote : m.voted_for ≡ n.voted_for
    pub id : m.id ≡ n.id
    pub role : m.state ≡ n.state

  -- A well-formed node whose term and vote are those of `n`.
  abbrev pub Stays : RaftNode D → RaftNode D → Type 0
  Stays n m = IsWellFormed m × SameVote n m

  -- A well-formed later state of the same node, that kept its vote, and leads only if it led before in
  -- the same term.
  pub record Follows (n m : RaftNode D) : Type 0 where
    pub shape : IsWellFormed m
    pub votes : KeepsVote n m
    pub name : m.id ≡ n.id
    pub role : m.state ≡ leader → (n.state ≡ leader) × (m.current_term ≡ n.current_term)

  pub Stays-Follows : (n m : RaftNode D) → Stays n m → Follows n m
  Stays-Follows n m (w, s) = record {
    shape = w;
    votes = inr (sym s.term, inr s.vote);
    name = s.id;
    role = λ e. (sym s.role ∙ e, s.term);
  }

  -- The node as a leader.
  abbrev pub elected : RaftNode D → RaftNode D
  elected n = record n { state = leader; leader_id = n.id }

  pub elected-Stays : (n : RaftNode D) → IsWellFormed n → Stays (elected n) (elected n)
  elected-Stays n w = ground (arith, w)

module _ {D : Type 0} ⦃stable : StableStore D⦄ where
  pub persist-Stays : (n k : RaftNode D) → Stays n k → Stays n (persist k).0
  persist-Stays n k s = persist-keeps (Stays n) k (λ d. ground (arith, s))

  pub persist-Follows : (n k : RaftNode D) → Follows n k → Follows n (persist k).0
  persist-Follows n k f =
      persist-keeps (Follows n) k
        (λ d. record { shape = ground (arith, f); votes = f.votes; name = f.name; role = f.role })
