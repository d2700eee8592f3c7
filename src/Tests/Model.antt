-- ===== src/Tests/Model.antt =====
-- The validation of src/model.rs on small inputs.
use mr_boxington_cache.Prelude.{◌+◌, ◌≡◌, ◌↔◌, refl, true, ◌&&◌, [], ◌∷◌, all, leb}
use mr_boxington_cache.Prelude.Bytes.{Text, text}
use mr_boxington_cache.Protocol.Samples.{sample}
use mr_boxington_cache.Model.{valid_string, valid_normalized_path, distinct_inputs}
use mr_boxington_cache.Model.BuildScript.{
  BuildScriptInput, file, symlink, validate_input, links, targets, valid_end, validate_input-links,
}
use mr_boxington_cache.Model.Paths.{
  IsNormalized, Distinct, valid_normalized_path-IsNormalized, distinct_inputs_iff,
}

abbrev path : Text
path = text "${workspace}/src/main.rs"

path_valid : valid_normalized_path path ≡ true
unfolding valid_normalized_path
path_valid = refl

valid_normalized_path-IsNormalized_example : IsNormalized path
valid_normalized_path-IsNormalized_example = valid_normalized_path-IsNormalized path path_valid

distinct_inputs_iff_example :
    (distinct_inputs valid_string (λ t. t) [] (text "a" ∷ text "b" ∷ []) ≡ true) ↔ (
      (all valid_string (text "a" ∷ text "b" ∷ []) ≡ true)
      × Distinct (λ t. t) [] (text "a" ∷ text "b" ∷ []))
distinct_inputs_iff_example =
    distinct_inputs_iff valid_string (λ t. t) [] (text "a" ∷ text "b" ∷ [])

abbrev chain : BuildScriptInput
chain =
    symlink (text "lib.so")
      (file (record { algorithm = text "blake3"; hash = text "00"; size = 1 }))

validate_input-links_example :
    validate_input sample chain 0
    ≡ (leb (links chain + 0) 64 && (all valid_string (targets chain) && valid_end sample chain))
validate_input-links_example = validate_input-links sample chain 0
