-- ===== src/Model/Paths.antt =====
-- What the validation of paths and inputs in src/model.rs keeps out.
use mr_boxington_cache.Prelude.{
  ℕ, ◌≡◌, refl, sym, ap, ◌∙◌, Bool, true, false, List, [], ◌∷◌, ◌++◌, append_assoc, some, is_empty,
  all, nat_beq, nat_beq_iff, arith, Bool-cases, Option-cases, inl, inr, ◌⊎◌, ◌↔◌,
}
use mr_boxington_cache.Prelude.Bytes.{Text, text, split, split_once_from, strip_prefix}
use mr_boxington_cache.Prelude.Equality.{contains, nat_eq, list_eq}
use mr_boxington_cache.Auth.{is_safe_component}
use mr_boxington_cache.Model.{
  valid_normalized_path, valid_suffix, placeholder_of, is_placeholder_byte, distinct_inputs,
}

strip_prefix-eq-some :
    (before s rest : Text) → strip_prefix before s ≡ some rest → s ≡ before ++ rest
strip_prefix-eq-some [] s rest e = ground arith
strip_prefix-eq-some (c ∷ cs) [] rest e = absurd cc
strip_prefix-eq-some (c ∷ cs) (b ∷ bs) rest e = elim (Bool-cases (nat_beq c b)) [
  | inl same ↦ ground (arith, same, e, strip_prefix-eq-some cs bs rest, nat_beq_iff c b)
  | inr other ↦ ground (arith, other, e)
]

split_once_from-eq-some :
    (sep : ℕ) (current s before after : Text)
    → split_once_from sep current s ≡ some (before, after)
    → (current ++ s) ≡ (before ++ (sep ∷ after))
split_once_from-eq-some sep current [] before after e = absurd cc
split_once_from-eq-some sep current (b ∷ bs) before after e = elim (Bool-cases (nat_beq b sep)) [
  | inl same ↦ ground (arith, same, e, nat_beq_iff b sep)
  | inr other ↦
      sym (append_assoc current (b ∷ []) bs)
      ∙ split_once_from-eq-some sep (current ++ (b ∷ [])) bs before after (rw other at e)
]

-- A path that the validation accepts is a placeholder, and behind it nothing, or a slash and
-- components none of which is empty, `.` or `..`.
pub record IsNormalized (path : Text) : Type 0 where
  pub placeholder : Text
  pub suffix : Text
  pub shape : path ≡ text "${" ++ (placeholder ++ (b'}' ∷ suffix))
  pub placeholder_some : is_empty placeholder ≡ false
  pub placeholder_bytes : all is_placeholder_byte placeholder ≡ true
  pub below :
      (suffix ≡ [])
      ⊎ ((rest : Text) × (suffix ≡ b'/' ∷ rest)
          × (contains rest b'\\' ≡ false)
          × (contains rest 0 ≡ false)
          × (all is_safe_component (split b'/' rest) ≡ true))

suffix_below :
    (suffix : Text)
    → valid_suffix suffix ≡ true
    → (suffix ≡ [])
      ⊎ ((rest : Text) × (suffix ≡ b'/' ∷ rest)
          × (contains rest b'\\' ≡ false)
          × (contains rest 0 ≡ false)
          × (all is_safe_component (split b'/' rest) ≡ true))
unfolding valid_suffix
suffix_below [] e = inl refl
suffix_below (b ∷ bs) e = elim (Bool-cases (nat_beq b'/' b)) [
  | inl slash ↦ inr (
    bs,
    ground (arith, nat_beq_iff b'/' b, slash),
    ground (arith, slash, e),
    ground (arith, slash, e),
    ground (arith, slash, e),
  )
  | inr other ↦ ground (arith, other, e)
]

placeholder_shape :
    (path placeholder suffix : Text)
    → placeholder_of path ≡ some (placeholder, suffix)
    → path ≡ text "${" ++ (placeholder ++ (b'}' ∷ suffix))
unfolding placeholder_of
placeholder_shape path placeholder suffix e = elim (Option-cases (strip_prefix (text "${") path)) [
  | inl missing ↦ absurd (cc (rw missing at e))
  | inr (rest, found) ↦
      strip_prefix-eq-some (text "${") path rest found
      ∙ ap (λ r. text "${" ++ r)
          (split_once_from-eq-some b'}' [] rest placeholder suffix (rw found at e))
]

normalized_parts :
    (path : Text) (parts : Text × Text)
    → placeholder_of path ≡ some parts
    → valid_normalized_path path ≡ true
    → (is_empty parts.0 ≡ false)
      × (all is_placeholder_byte parts.0 ≡ true)
      × (valid_suffix parts.1 ≡ true)
unfolding valid_normalized_path
normalized_parts path parts found e = ground (arith, found, e)

-- A path that the service accepts as normalized leads nowhere but below its placeholder.
pub valid_normalized_path-IsNormalized :
    (path : Text) → valid_normalized_path path ≡ true → IsNormalized path
unfolding valid_normalized_path
valid_normalized_path-IsNormalized path e = elim (Option-cases (placeholder_of path)) [
  | inl missing ↦ absurd (cc (rw missing at e))
  | inr (parts, found) ↦
      let (some_byte, bytes, below) = normalized_parts path parts found e in
      record {
        placeholder = parts.0;
        suffix = parts.1;
        shape = placeholder_shape path parts.0 parts.1 found;
        placeholder_some = some_byte;
        placeholder_bytes = bytes;
        below = suffix_below parts.1 below;
      }
]

-- No path of the list is in `seen`, and none comes twice.
pub Distinct : {A : Type 0} → (A → Text) → List Text → List A → Type 0
Distinct path seen [] = Unit
Distinct path seen (x ∷ xs) = (contains seen (path x) ≡ false) × Distinct path (path x ∷ seen) xs

-- The pass over the inputs of an action, with the set of the paths it has met, says yes exactly
-- when every input is valid and no path comes twice.
pub distinct_inputs_iff :
    {A : Type 0} (validate : A → Bool) (path : A → Text) (seen : List Text) (xs : List A)
    → (distinct_inputs validate path seen xs ≡ true)
      ↔ ((all validate xs ≡ true) × Distinct path seen xs)
unfolding distinct_inputs Distinct
distinct_inputs_iff validate path seen [] = ground arith
distinct_inputs_iff validate path seen (x ∷ xs) =
    ground (arith, distinct_inputs_iff validate path (path x ∷ seen) xs)
