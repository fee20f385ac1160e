-- ===== src/Base/Map.antt =====
-- Go's `map[string]V` as an association list. A nil map is `none`.
use Prim.Native.String.{String}
use mathlib.Core.Path.{◌≡◌, ap}
use mathlib.Core.Logic.{◌≢◌}
use mathlib.Core.Option.{Option, none, some}
use mathlib.Core.List.{List, [], ◌∷◌}
use native.Mathlib.Omega.{arith}
use text.Mathlib.Text.{◌==◌ as str_eq}
use text.Mathlib.TextEquality.{eq_iff}
use rv_key_value.Base.Tests.{if◌then◌else◌}

abbrev pub Map {ℓ} : Type ℓ → Type ℓ
Map V = List (String × V)

module _ {ℓ} {V : Type ℓ} where
  unfoldable pub lookup : String → Map V → Option V
  lookup k [] = none
  lookup k ((j, v) ∷ m) = if str_eq j k then some v else lookup k m

  -- `delete(m, k)`
  unfoldable pub erase : String → Map V → Map V
  erase k [] = []
  erase k ((j, v) ∷ m) = let rest = erase k m in if str_eq j k then rest else (j, v) ∷ rest

  -- `m[k] = v`
  unfoldable pub insert : String → V → Map V → Map V
  unfolding erase
  insert k v m = (k, v) ∷ erase k m

  -- a read of a map that may be nil
  unfoldable pub lookup? : String → Option (Map V) → Option V
  unfolding lookup
  lookup? k none = none
  lookup? k (some m) = lookup k m

  pub lookup-erase :
      (k j : String) (m : Map V) → lookup j (erase k m) ≡ (if str_eq k j then none else lookup j m)
  unfolding lookup erase
  lookup-erase k j [] = ground arith
  lookup-erase k j ((i, v) ∷ m) =
      ground (arith, lookup-erase k j m, eq_iff i k, eq_iff i j, eq_iff k j)

  pub lookup-insert :
      (k j : String) (v : V) (m : Map V)
      → lookup j (insert k v m) ≡ (if str_eq k j then some v else lookup j m)
  unfolding lookup insert
  lookup-insert k j v m = ground (arith, lookup-erase k j m)

-- A map that holds something is not nil.
pub lookup?-ne-none {ℓ} :
    {V : Type ℓ} (k : String) (m : Option (Map V)) {v : V} → lookup? k m ≡ some v → m ≢ none
unfolding lookup?
lookup?-ne-none k m h e = cc (ap (lookup? k) e)

pub ruleset map_laws = (lookup-erase, lookup-insert)
