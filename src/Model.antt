-- ===== src/Model.antt =====
-- The validation of action descriptors and adapter metadata: src/model.rs. What is common to the
-- adapters stands here, and each adapter's records in a child module. A `BTreeMap` is the list of
-- its entries.
pub mod Task
pub mod Rustc
pub mod Cc
pub mod BuildScript
pub mod Paths
use mr_boxington_cache.Prelude.{
  ℕ, Bool, true, false, not, ◌&&◌, ◌||◌, List, [], ◌∷◌, Option, none, some, is_empty, all, nat_beq,
  if◌then◌else◌,
}
use mr_boxington_cache.Prelude.Bytes.{Text, text, is_alphanumeric, split, split_once, strip_prefix}
use mr_boxington_cache.Prelude.Equality.{contains, nat_eq, list_eq}
use mr_boxington_cache.Auth.{is_safe_component}

-- `is_none_or`
abbrev pub is_none_or {ℓ} : {A : Type ℓ} → (A → Bool) → Option A → Bool
is_none_or test none = true
is_none_or test (some a) = test a

unfoldable pub valid_string : Text → Bool
valid_string value = not (contains value 0)

unfoldable pub valid_strings : List Text → Bool
valid_strings values = all valid_string values

unfoldable pub valid_string_map : List (Text × Text) → Bool
valid_string_map values = all (λ e. valid_string e.0 && valid_string e.1) values

-- A string that is there.
unfoldable pub valid_some_string : Text → Bool
valid_some_string value = not (is_empty value) && valid_string value

unfoldable pub valid_optional_string_map : List (Text × Option Text) → Bool
unfolding valid_some_string
valid_optional_string_map values =
    all (λ e. valid_some_string e.0 && is_none_or valid_string e.1) values

unfoldable pub is_placeholder_byte : ℕ → Bool
is_placeholder_byte b = is_alphanumeric b || nat_beq b b'_'

-- The part behind the placeholder: nothing, or a slash and components that lead downwards.
unfoldable pub valid_suffix : Text → Bool
unfolding is_safe_component
valid_suffix suffix = is_empty suffix || elim (strip_prefix (text "/") suffix) [
  | none ↦ false
  | some path ↦
      not (is_empty path)
      && (not (contains path b'\\' || contains path 0) && all is_safe_component (split b'/' path))
]

-- `path.strip_prefix("${").and_then(|path| path.split_once('}'))`
unfoldable pub placeholder_of : Text → Option (Text × Text)
placeholder_of path = elim (strip_prefix (text "${") path) [
  | none ↦ none
  | some rest ↦ split_once b'}' rest
]

unfoldable pub valid_normalized_path : Text → Bool
unfolding placeholder_of valid_suffix is_placeholder_byte
valid_normalized_path path = elim (placeholder_of path) [
  | none ↦ false
  | some (placeholder, suffix) ↦
      if is_empty placeholder || not (all is_placeholder_byte placeholder)
      then false
      else valid_suffix suffix
]

-- `inputs.all(|input| input.validate() && input_paths.insert(&input.path))`, over the paths that
-- the set holds so far.
unfoldable pub distinct_inputs : {A : Type 0} → (A → Bool) → (A → Text) → List Text → List A → Bool
distinct_inputs validate path seen [] = true
distinct_inputs validate path seen (x ∷ xs) =
    validate x && (not (contains seen (path x)) && distinct_inputs validate path (path x ∷ seen) xs)
