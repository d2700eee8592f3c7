-- ===== src/Model/BuildScript.antt =====
-- Build-script actions and their metadata: `BuildScriptAction`, `BuildScriptInput` and
-- `BuildScriptMetadata` of src/model.rs.
use mr_boxington_cache.Prelude.{
  ℕ, suc, ◌+◌, ◌≡◌, Bool, true, false, not, ◌&&◌, List, [], ◌∷◌, Option, is_empty, all, nat_beq,
  leb, ltb, arith, if◌then◌else◌,
}
use mr_boxington_cache.Prelude.Bytes.{Text, text}
use mr_boxington_cache.Prelude.Equality.{◌==◌, nat_eq, list_eq}
use mr_boxington_cache.Protocol.{Protocol, Digest}
use mr_boxington_cache.Model.{is_none_or, valid_string, valid_optional_string_map}

pub data BuildScriptInput : Type 0 where
  missing blocked_by_file : BuildScriptInput
  file directory : Digest → BuildScriptInput
  symlink : (target : Text) (referent : BuildScriptInput) → BuildScriptInput

pub record BuildScriptAction : Type 0 where
  pub version : ℕ
  pub kind : Text
  pub archive_timestamps : Option Text
  pub binary_action : Digest
  pub cargo_environment : List (Text × Option Text)
  pub checkout : Option Text
  pub environment : List (Text × Option Text)
  pub inputs : List (Text × BuildScriptInput)
  pub out_dir : Option Text

pub record BuildScriptMetadata : Type 0 where
  pub version : ℕ
  pub kind : Text
  pub stdout : Digest
  pub stderr : Digest

-- `BUILD_SCRIPT_ACTION_SCHEMAS.contains`
unfoldable pub is_action_schema : ℕ → Bool
is_action_schema version = leb 2 version && leb version 5

unfoldable pub validate_input : Protocol → BuildScriptInput → ℕ → Bool
validate_input p missing depth = if ltb 64 depth then false else true
validate_input p blocked_by_file depth = if ltb 64 depth then false else true
validate_input p (file digest) depth = if ltb 64 depth then false else p.valid_digest digest
validate_input p (directory digest) depth = if ltb 64 depth then false else p.valid_digest digest
validate_input p (symlink target referent) depth =
    let rest = validate_input p referent (depth + 1) in
    if ltb 64 depth then false else valid_string target && rest

unfoldable pub validate_action : Protocol → BuildScriptAction → Bool
unfolding is_action_schema validate_input
validate_action p a =
    is_action_schema a.version
    && (a.kind == text "build-script"
        && (is_none_or valid_string a.archive_timestamps
            && (p.valid_digest a.binary_action
                && (valid_optional_string_map a.cargo_environment
                    && (valid_optional_string_map a.environment
                        && (all
                              (λ e.
                                valid_string e.0 && (not (is_empty e.0) && validate_input p e.1 0))
                              a.inputs
                            && (is_none_or valid_string a.out_dir
                                && is_none_or valid_string a.checkout)))))))

unfoldable pub validate_metadata : Protocol → BuildScriptMetadata → Bool
validate_metadata p m =
    nat_beq m.version 1
    && (m.kind == text "build-script" && (p.valid_digest m.stdout && p.valid_digest m.stderr))

-- The links of a chain, and the input that it ends at.
unfoldable pub links : BuildScriptInput → ℕ
links (symlink target referent) = suc (links referent)
links _ = 0

unfoldable pub targets : BuildScriptInput → List Text
targets (symlink target referent) = target ∷ targets referent
targets _ = []

-- Whether the input at the end of the chain names a valid digest, if it names one.
unfoldable pub valid_end : Protocol → BuildScriptInput → Bool
valid_end p (file digest) = p.valid_digest digest
valid_end p (directory digest) = p.valid_digest digest
valid_end p (symlink target referent) = valid_end p referent
valid_end p _ = true

-- The validation of an input says yes exactly when the chain of links, counted from the depth it
-- begins at, is at most 64 long, every link's target is a text without a zero byte, and the
-- digest at the end of the chain, if there is one, is valid.
pub validate_input-links :
    (p : Protocol) (i : BuildScriptInput) (depth : ℕ)
    → validate_input p i depth
      ≡ (leb (links i + depth) 64 && (all valid_string (targets i) && valid_end p i))
unfolding validate_input links targets valid_end
validate_input-links p missing depth = ground arith
validate_input-links p blocked_by_file depth = ground arith
validate_input-links p (file digest) depth = ground arith
validate_input-links p (directory digest) depth = ground arith
validate_input-links p (symlink target referent) depth =
    ground (arith, validate_input-links p referent (depth + 1))
