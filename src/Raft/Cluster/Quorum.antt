-- ===== src/Raft/Cluster/Quorum.antt =====
-- Two majorities of the same voters share a voter.
use rv_key_value.Base.{
  ◌+◌, ◌≤◌, ◌<◌, Bool, true, List, [], ◌∷◌, ◌≡◌, arith, count, length, ◌&&◌, inl, inr, Bool-cases,
}
use rv_key_value.Raft.Node.{majority}

module _ {A : Type 0} (p q : A → Bool) where
  -- Tests that both pass more than half of the elements pass one of them together.
  overlap :
      (xs : List A) → length xs < count p xs + count q xs → (x : A) × (p x ≡ true) × (q x ≡ true)
  overlap [] h = elim h [ ]
  overlap (x ∷ xs) h = elim (Bool-cases (p x && q x)) [
    | inl both ↦ (x, ground (arith, both), ground (arith, both))
    | inr apart ↦ overlap xs (ground arith)
  ]

  pub majorities_meet :
      (xs : List A)
      → majority (length xs) ≤ count p xs
      → majority (length xs) ≤ count q xs
      → (x : A) × (p x ≡ true) × (q x ≡ true)
  unfolding majority
  majorities_meet xs hp hq = overlap xs (omega arith)
