-- ===== src/Model/Rustc.antt =====
-- Rustc actions: `RustcAction` and its parts, of src/model.rs.
use mr_boxington_cache.Prelude.{
  ℕ, Bool, not, ◌&&◌, List, [], ◌∷◌, Option, is_empty, all, nat_beq, ltb,
}
use mr_boxington_cache.Prelude.Bytes.{Text, text}
use mr_boxington_cache.Prelude.Equality.{◌==◌, nat_eq, list_eq}
use mr_boxington_cache.Protocol.{Protocol, Digest}
use mr_boxington_cache.Model.{
  is_none_or, valid_strings, valid_some_string, valid_optional_string_map, valid_normalized_path,
  distinct_inputs,
}

pub record RustcCompiler : Type 0 where
  pub toolchain : Text
  pub rustc_version : Text
  pub host : Text
  pub driver : Option Text

pub record RustcInput : Type 0 where
  pub path : Text
  pub digest : Digest

pub record RustcLinkerIdentity : Type 0 where
  pub driver : Text
  pub driver_version : Text
  pub linker_version : Text
  pub crt_objects : List (Text × Digest)
  pub sdk : Option Text
  pub deployment_target : Option Text

pub record RustcAction : Type 0 where
  pub version : ℕ
  pub kind : Text
  pub adapter_version : ℕ
  pub compiler : RustcCompiler
  pub arguments : List Text
  pub environment : List (Text × Option Text)
  pub inputs : List RustcInput
  pub linker : Option RustcLinkerIdentity

unfoldable pub validate_compiler : RustcCompiler → Bool
validate_compiler c =
    all valid_some_string (c.toolchain ∷ c.rustc_version ∷ c.host ∷ [])
    && is_none_or valid_some_string c.driver

unfoldable pub validate_input : Protocol → RustcInput → Bool
validate_input p i = valid_normalized_path i.path && p.valid_digest i.digest

unfoldable pub validate_linker : Protocol → RustcLinkerIdentity → Bool
validate_linker p l =
    all valid_some_string (l.driver ∷ l.driver_version ∷ l.linker_version ∷ [])
    && (all (λ e. valid_some_string e.0 && p.valid_digest e.1) l.crt_objects
        && (is_none_or valid_some_string l.sdk && is_none_or valid_some_string l.deployment_target))

unfoldable pub validate_action : Protocol → RustcAction → Bool
unfolding validate_compiler validate_input validate_linker distinct_inputs
validate_action p a =
    nat_beq a.version 1
    && (a.kind == text "rustc"
        && (ltb 0 a.adapter_version
            && (validate_compiler a.compiler
                && (valid_strings a.arguments
                    && (valid_optional_string_map a.environment
                        && (not (is_empty a.inputs)
                            && (distinct_inputs (validate_input p) (λ i. i.path) [] a.inputs
                                && is_none_or (validate_linker p) a.linker)))))))
