-- ===== src/Prelude/Bytes.antt =====
-- Text as its UTF-8 bytes: literals, `split`, `strip_prefix`, `strip_suffix`, and the classes of
-- ASCII bytes that the program tests.
use Prim.Native.Nat.{ℕ}
use Prim.Native.Char.{code}
use Prim.Native.String.{String}
use mathlib.Core.Bool.{Bool, ◌&&◌, ◌||◌}
use mathlib.Core.List.{List, [], ◌∷◌, ◌++◌, reverse}
use mathlib.Core.Option.{Option, none, some}
use mr_boxington_cache.Prelude.Tests.{leb, nat_beq, if◌then◌else◌}
use mr_boxington_cache.Prelude.Equality.{nat_eq}

abbrev pub Text : Type 0
Text = List ℕ

-- The bytes of an ASCII literal.
abbrev pub text : String → Text
text String.[] = []
text (String.◌∷◌ c s) = code c ∷ text s

-- `low..=high`
abbrev pub in_range : (low high b : ℕ) → Bool
in_range low high b = leb low b && leb b high

abbrev pub is_digit : ℕ → Bool
is_digit b = in_range b'0' b'9' b

-- `is_ascii_alphanumeric`
abbrev pub is_alphanumeric : ℕ → Bool
is_alphanumeric b = is_digit b || (in_range b'a' b'z' b || in_range b'A' b'Z' b)

-- `str::split` by one byte: always one component at least.
abbrev pub split_from : ℕ → Text → Text → List Text
split_from sep current [] = current ∷ []
split_from sep current (b ∷ bs) =
    let cut = current ∷ split_from sep [] bs in
    let more = split_from sep (current ++ (b ∷ [])) bs in if nat_beq b sep then cut else more

abbrev pub split : ℕ → Text → List Text
split sep s = split_from sep [] s

-- `split_once`: the text before and behind the first separator.
abbrev pub split_once_from : ℕ → Text → Text → Option (Text × Text)
split_once_from sep current [] = none
split_once_from sep current (b ∷ bs) =
    let more = split_once_from sep (current ++ (b ∷ [])) bs in
    if nat_beq b sep then some (current, bs) else more

abbrev pub split_once : ℕ → Text → Option (Text × Text)
split_once sep s = split_once_from sep [] s

-- `strip_prefix`
abbrev pub strip_prefix : Text → Text → Option Text
strip_prefix [] s = some s
strip_prefix (c ∷ cs) [] = none
strip_prefix (c ∷ cs) (b ∷ bs) = if nat_beq c b then strip_prefix cs bs else none

-- `strip_suffix`
abbrev pub strip_suffix : Text → Text → Option Text
strip_suffix suffix s = elim (strip_prefix (reverse suffix) (reverse s)) [
  | none ↦ none
  | some r ↦ some (reverse r)
]
