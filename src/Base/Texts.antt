-- ===== src/Base/Texts.antt =====
-- What the source uses of Go's package strings.
use Prim.Native.Char.{Char, code}
use Prim.Native.Nat.{ℕ}
use Prim.Native.String.{String}
use Prim.Native.String as Text
use Prim.Native.String.{◌++◌}
use mathlib.Core.Path.{◌≡◌, refl}
use native.Mathlib.Omega.{arith}
use text.Mathlib.TextLemmas.{nil-append, cons-append}
use mathlib.Core.Bool.{Bool, false, ◌||◌}
use mathlib.Core.Option.{Option, none, some}
use mathlib.Core.List.{List, [], ◌∷◌}
use rv_key_value.Base.Tests.{◌==◌, if◌then◌else◌}

-- What stands behind a prefix, if the text has it.
unfoldable pub cut_prefix : String → String → Option String
cut_prefix Text.[] s = some s
cut_prefix (Text.◌∷◌ c p) Text.[] = none
cut_prefix (Text.◌∷◌ c p) (Text.◌∷◌ d s) =
    let rest = cut_prefix p s in if code c == code d then rest else none

abbrev pub or_text : String → Option String → String
or_text s none = s
or_text s (some t) = t

-- strings.TrimPrefix
unfoldable pub trim_prefix : String → String → String
unfolding cut_prefix
trim_prefix s prefix = or_text s (cut_prefix prefix s)

-- strings.Contains, for a text of one character.
unfoldable pub contains_char : String → ℕ → Bool
contains_char Text.[] k = false
contains_char (Text.◌∷◌ c s) k = code c == k || contains_char s k

abbrev pub longer_head : Char → List String → List String
longer_head c [] = Text.◌∷◌ c Text.[] ∷ []
longer_head c (s ∷ ss) = Text.◌∷◌ c s ∷ ss

-- strings.Split, at a text of one character.
unfoldable pub split : String → ℕ → List String
split Text.[] k = Text.[] ∷ []
split (Text.◌∷◌ c s) k =
    let rest = split s k in if code c == k then Text.[] ∷ rest else longer_head c rest

abbrev pub longer_first : Char → Option (String × String) → Option (String × String)
longer_first c none = none
longer_first c (some (a, b)) = some (Text.◌∷◌ c a, b)

-- strings.SplitN into two parts, at a text of one character: `none` for one part.
unfoldable pub split_two : String → ℕ → Option (String × String)
split_two Text.[] k = none
split_two (Text.◌∷◌ c s) k =
    let rest = split_two s k in if code c == k then some (Text.[], s) else longer_first c rest

cut_prefix-append : (p s : String) → cut_prefix p (p ++ s) ≡ some s
unfolding cut_prefix
cut_prefix-append Text.[] s = rw nil-append refl
cut_prefix-append (Text.◌∷◌ c p) s = rw cons-append (ground (arith, cut_prefix-append p s))

-- A prefix that is put before a text is trimmed.
pub trim_prefix-append : (p s : String) → trim_prefix (p ++ s) p ≡ s
unfolding trim_prefix
trim_prefix-append p s = rw (cut_prefix-append p s) refl
