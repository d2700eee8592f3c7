-- ===== src/Server/Descriptors.antt =====
-- Action descriptors: `ActionKind`, `validate_action_result_shape`, `validate_action_descriptor` and
-- `validate_{build_script,cc,task,rustc}_action` of src/server.rs.
pub mod Kinds
use mr_boxington_cache.Prelude.{
  ℕ, Bool, true, false, not, ◌&&◌, ◌||◌, List, [], ◌∷◌, ◌++◌, Option, none, some, Result, ok, err,
  ◌>>=◌, ◌>>◌, ensure, ok_or, ltb, nat_beq, if◌then◌else◌,
}
use mr_boxington_cache.Prelude.Bytes.{Text, text}
use mr_boxington_cache.Prelude.Equality.{◌==◌, nat_eq, list_eq}
use mr_boxington_cache.Json.{Value, null, boolean, number, string, array, object, get, as_str}
use mr_boxington_cache.Protocol.{Protocol, Digest}
use mr_boxington_cache.Metadata.{ActionResult}
use mr_boxington_cache.Model.Task
use mr_boxington_cache.Model.Rustc
use mr_boxington_cache.Model.Cc
use mr_boxington_cache.Model.BuildScript
use mr_boxington_cache.Server.Errors.{ApiError, unprocessable, decimal}
use mr_boxington_cache.Server.Digests.{map_err}
use mr_boxington_cache.Server.Service.{AppState, Config}
use mr_boxington_cache.Server.Serde.{Serde}
use mr_boxington_cache.Server.Objects.{is_object, read_canonical_object}
use mr_boxington_cache.Server.Handler as Steps
use mr_boxington_cache.Server.Handler.{Handler, lift}

pub data ActionKind : Type 0 where
  build_script cc rustc task : ActionKind

unfoldable pub is_task : ActionKind → Bool
is_task task = true
is_task _ = false

unfoldable pub is_none {ℓ} : {A : Type ℓ} → Option A → Bool
is_none none = true
is_none (some a) = false

unfoldable pub validate_action_result_shape : ActionResult → ActionKind → Result ApiError (Unit {0})
unfolding is_task is_none
validate_action_result_shape result action_kind =
    if not (is_task action_kind) && (is_none result.metadata || is_none result.output_root)
    then err (unprocessable (text "compiler action results require metadata and an output root"))
    else ok tt

-- The fields that every task action has.
abbrev pub task_fields : List Text
task_fields =
    text "version"
    ∷ text "kind"
    ∷ text "task"
    ∷ text "phase"
    ∷ text "run"
    ∷ text "args"
    ∷ text "shell"
    ∷ text "outputs"
    ∷ text "root"
    ∷ text "source_hash"
    ∷ text "environment"
    ∷ text "vars"
    ∷ text "tools"
    ∷ text "os"
    ∷ text "arch"
    ∷ []

-- `Value::as_u64` of a field
unfoldable pub u64_of : Serde → Value → Option ℕ
u64_of serde (number digits) = serde.as_u64 digits
u64_of serde _ = none

unfoldable pub str_field : Text → Value → Option Text
unfolding as_str
str_field name value = elim (get name value) [ none ↦ none | some field ↦ as_str field ]

unfoldable pub u64_field : Serde → Text → Value → Option ℕ
unfolding u64_of
u64_field serde name value = elim (get name value) [ none ↦ none | some field ↦ u64_of serde field ]

module _ (protocol : Protocol) (serde : Serde) where
  unfoldable pub validate_build_script_action : Value → ℕ → Result ApiError ActionKind
  validate_build_script_action value version = do
    ensure (ltb version 256 && BuildScript.is_action_schema version)
        (unprocessable (text "unsupported build-script action schema " ++ decimal version))
    action ←
        map_err (λ error. unprocessable (text "invalid build-script action: " ++ error))
          (serde.build_script_action value)
    ensure (BuildScript.validate_action protocol action)
        (unprocessable (text "invalid build-script action values"))
    ok build_script

  unfoldable pub validate_cc_action : Value → ℕ → Result ApiError ActionKind
  validate_cc_action value version = do
    ensure (nat_beq version 1)
        (unprocessable (text "unsupported cc action schema " ++ decimal version))
    action ←
        map_err (λ error. unprocessable (text "invalid cc action: " ++ error))
          (serde.cc_action value)
    ensure (Cc.validate_action protocol action) (unprocessable (text "invalid cc action values"))
    ok cc

  unfoldable pub require_fields : List Text → Value → Result ApiError (Unit {0})
  unfolding is_none
  require_fields [] value = ok tt
  require_fields (field ∷ fields) value = do
    ensure (not (is_none (get field value)))
        (unprocessable (text "task action field " ++ (serde.debug field ++ text " is required")))
    require_fields fields value

  unfoldable pub validate_task_action : Value → ℕ → Result ApiError ActionKind
  unfolding require_fields
  validate_task_action value version = do
    ensure (nat_beq version 1)
        (unprocessable (text "unsupported task action schema " ++ decimal version))
    require_fields task_fields value
    action ←
        map_err (λ error. unprocessable (text "invalid task action: " ++ error))
          (serde.task_action value)
    ensure (Task.validate_action action) (unprocessable (text "invalid task action values"))
    ok task

  unfoldable pub validate_rustc_action : Value → ℕ → Result ApiError ActionKind
  validate_rustc_action value version = do
    ensure (nat_beq version 1)
        (unprocessable (text "unsupported rustc action schema " ++ decimal version))
    action ←
        map_err (λ error. unprocessable (text "invalid rustc action: " ++ error))
          (serde.rustc_action value)
    ensure (Rustc.validate_action protocol action)
        (unprocessable (text "invalid rustc action values"))
    ok rustc

  -- `match kind.as_str()`
  unfoldable pub validate_kind : Text → Value → ℕ → Result ApiError ActionKind
  unfolding validate_build_script_action validate_cc_action validate_task_action
      validate_rustc_action
  validate_kind kind value version =
      if kind == text "build-script"
      then validate_build_script_action value version
      else if kind == text "cc"
      then validate_cc_action value version
      else if kind == text "task"
      then validate_task_action value version
      else if kind == text "rustc"
      then validate_rustc_action value version
      else err (unprocessable (text "unsupported action kind " ++ serde.debug kind))

  -- The descriptor, once it is read: an object with a kind and a version.
  unfoldable pub described : Value → Result ApiError ActionKind
  unfolding is_object str_field u64_field validate_kind
  described value = do
    ensure (is_object value) (unprocessable (text "action descriptor must be a JSON object"))
    kind ←
        ok_or (str_field (text "kind") value)
          (unprocessable (text "action descriptor kind is required"))
    version ←
        ok_or (u64_field serde (text "version") value)
          (unprocessable (text "action descriptor version is required"))
    validate_kind kind value version

unfoldable pub validate_action_descriptor :
    {M B S : Type 0} → Config M B S → Serde → Text → Digest → Handler (AppState M B S) ActionKind
unfolding read_canonical_object described
validate_action_descriptor c serde namespace digest =
    Steps.◌>>=◌ (read_canonical_object c serde namespace digest (text "action descriptor"))
      λ value. lift (described c.protocol serde value)
