-- ===== src/Model/Cc.antt =====
-- C and C++ actions: `CcAction` and its parts, of src/model.rs.
use mr_boxington_cache.Prelude.{
  ℕ, Bool, not, ◌&&◌, List, [], ◌∷◌, Option, is_empty, all, nat_beq, ltb,
}
use mr_boxington_cache.Prelude.Bytes.{Text, text}
use mr_boxington_cache.Prelude.Equality.{◌==◌, nat_eq, list_eq}
use mr_boxington_cache.Protocol.{Protocol, Digest}
use mr_boxington_cache.Model.{
  is_none_or, valid_string, valid_strings, valid_string_map, valid_some_string,
  valid_optional_string_map, distinct_inputs,
}

pub data CcArgument : Type 0 where
  plain : Text → CcArgument
  path : (flag path : Text) → CcArgument
  prefix_map : (flag from to : Text) → CcArgument
  source : Text → CcArgument

pub record CcPathBinding : Type 0 where
  pub working_dir : Text
  pub arguments : List CcArgument
  pub roots : List (Text × Text)

pub record CcPreprocessing : Type 0 where
  pub working_dir : Text
  pub arguments : List Text
  pub roots : List (Text × Text)

pub record CcCompiler : Type 0 where
  pub assembler : Text
  pub family : Text
  pub target : Text
  pub version_text : Text

pub record CcInput : Type 0 where
  pub digest : Digest
  pub path : Text

pub record CcAction : Type 0 where
  pub version : ℕ
  pub kind : Text
  pub adapter_version : ℕ
  pub assembly_input_model : Option ℕ
  pub path_binding : Option CcPathBinding
  pub preprocessing : Option CcPreprocessing
  pub compiler : CcCompiler
  pub arguments : List Text
  pub environment : List (Text × Option Text)
  pub inputs : List CcInput

unfoldable pub validate_argument : CcArgument → Bool
validate_argument (plain value) = valid_string value
validate_argument (source value) = valid_string value
validate_argument (path flag p) = valid_string flag && valid_string p
validate_argument (prefix_map flag from to) =
    valid_string flag && (valid_string from && valid_string to)

unfoldable pub validate_path_binding : CcPathBinding → Bool
unfolding validate_argument
validate_path_binding b =
    valid_string b.working_dir && (all validate_argument b.arguments && valid_string_map b.roots)

unfoldable pub validate_preprocessing : CcPreprocessing → Bool
validate_preprocessing b =
    valid_string b.working_dir && (valid_strings b.arguments && valid_string_map b.roots)

unfoldable pub validate_compiler : CcCompiler → Bool
validate_compiler c =
    valid_string c.assembler && all valid_some_string (c.family ∷ c.target ∷ c.version_text ∷ [])

-- Host paths and adapter-owned prefixes are allowed: the server reads none of them.
unfoldable pub validate_input : Protocol → CcInput → Bool
validate_input p i = valid_some_string i.path && p.valid_digest i.digest

unfoldable pub validate_action : Protocol → CcAction → Bool
unfolding validate_path_binding validate_preprocessing validate_compiler validate_input
    distinct_inputs
validate_action p a =
    nat_beq a.version 1
    && (a.kind == text "cc"
        && (ltb 0 a.adapter_version
            && (is_none_or (λ version. nat_beq version 1) a.assembly_input_model
                && (is_none_or validate_path_binding a.path_binding
                    && (is_none_or validate_preprocessing a.preprocessing
                        && (validate_compiler a.compiler
                            && (valid_strings a.arguments
                                && (valid_optional_string_map a.environment
                                    && (not (is_empty a.inputs)
                                        && distinct_inputs (validate_input p) (λ i. i.path) []
                                            a.inputs)))))))))
