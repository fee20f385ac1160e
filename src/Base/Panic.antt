-- ===== src/Base/Panic.antt =====
-- A call that may panic (an index out of range, a write to a nil map).
use mathlib.Core.Path.{◌≡◌, refl}
use mathlib.Core.Bool.{Bool, true, false}
use mathlib.Core.Option.{Option, none, some}
use mathlib.Core.List.{List}
use Prim.Native.Nat.{ℕ}
use rv_key_value.Base.Tests.{leb, if◌then◌else◌}
use rv_key_value.Base.Lists.{length, drop}

pub data Run {ℓ} (A : Type ℓ) : Type ℓ where
  ret : A → Run A
  panic : Run A

infixl 5 ◌>>=◌
abbrev pub ◌>>=◌ {ℓ κ} : {A : Type ℓ} {B : Type κ} → Run A → (A → Run B) → Run B
ret a >>= f = f a
panic >>= f = panic

-- An element that has to be there.
abbrev pub expect {ℓ} : {A : Type ℓ} → Option A → Run A
expect none = panic
expect (some a) = ret a

-- The call does not panic, and its result satisfies `P`.
abbrev pub Returns {ℓ} : {A : Type ℓ} → Run A → (A → Type 0) → Type 0
Returns (ret a) P = P a
Returns panic P = ⊥

-- `xs[n:]`
abbrev pub slice_from {ℓ} : {A : Type ℓ} → ℕ → List A → Run (List A)
slice_from n xs = if leb n (length xs) then ret (drop n xs) else panic

pub Returns-map {ℓ} :
    {A : Type ℓ} {P Q : A → Type 0} (r : Run A) → Returns r P → ((a : A) → P a → Q a) → Returns r Q
Returns-map (ret a) h f = f a h
Returns-map panic h f = h

-- The result of a call that returns.
pub Returns-ret {ℓ} :
    {A : Type ℓ} {P : A → Type 0} (r : Run A) → Returns r P → (a : A) × (r ≡ ret a) × P a
Returns-ret (ret a) h = (a, refl, h)
Returns-ret panic h = absurd h

-- The property is one of the result of this very call.
pub Returns-same :
    {A : Type 0} (P : A → Type 0) (r : Run A) → Returns r P → Returns r (λ a. (r ≡ ret a) × P a)
Returns-same P (ret a) h = (refl, h)
Returns-same P panic h = h

pub Returns-bind {ℓ κ} :
    {A : Type ℓ} {B : Type κ} (P : A → Type 0) (Q : B → Type 0) (r : Run A) (f : A → Run B)
    → Returns r P
    → ((a : A) → P a → Returns (f a) Q)
    → Returns (r >>= f) Q
Returns-bind P Q (ret a) f h k = k a h
Returns-bind P Q panic f h k = h

pub Returns-if {ℓ} :
    {A : Type ℓ} (P : A → Type 0) (b : Bool) (x y : Run A)
    → Returns x P
    → Returns y P
    → Returns (if b then x else y) P
Returns-if P true x y h k = h
Returns-if P false x y h k = k

-- A call whose result is projected.
pub Returns-project {ℓ κ} :
    {A : Type ℓ} {B : Type κ} (f : A → B) (P : B → Type 0) (r : Run A)
    → Returns r (λ a. P (f a))
    → Returns (r >>= λ a. ret (f a)) P
Returns-project f P (ret a) h = h
Returns-project f P panic h = h

pub Returns-option {ℓ κ} :
    {A : Type ℓ} {E : Type κ} (P : A → Type 0) (o : Option E) (x : Run A) (f : E → Run A)
    → Returns x P
    → ((e : E) → Returns (f e) P)
    → Returns (elim o [ none ↦ x | some e ↦ f e ]) P
Returns-option P none x f h k = h
Returns-option P (some e) x f h k = k e
