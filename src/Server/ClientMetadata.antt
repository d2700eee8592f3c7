-- ===== src/Server/ClientMetadata.antt =====
-- Client metadata: `validate_client_metadata`, `validate_{build_script,cc,task,rustc}_metadata` and
-- `require_output_blobs` of src/server.rs.
use mr_boxington_cache.Prelude.{ℕ, List, [], ◌∷◌, ◌++◌, Result, ok, err, ok_or, nat_beq}
use mr_boxington_cache.Prelude.Bytes.{Text, text}
use mr_boxington_cache.Prelude.Equality.{◌==◌, nat_eq, list_eq}
use mr_boxington_cache.Json.{Value}
use mr_boxington_cache.Protocol.{Digest}
use mr_boxington_cache.Model.Task
use mr_boxington_cache.Model.BuildScript
use mr_boxington_cache.Server.Errors.{ApiError, unprocessable, decimal}
use mr_boxington_cache.Server.Digests.{map_err}
use mr_boxington_cache.Server.Entries.{validate_task_root}
use mr_boxington_cache.Server.Service.{AppState, Config}
use mr_boxington_cache.Server.Serde.{Serde}
use mr_boxington_cache.Server.Objects.{is_object, read_canonical_object}
use mr_boxington_cache.Server.Lookups.{require_blob}
use mr_boxington_cache.Server.Descriptors.{
  ActionKind, build_script, cc, rustc, task, str_field, u64_field,
}
use mr_boxington_cache.Server.Handler.{Handler, lift, require, ◌>>=◌, ◌>>◌}

unfoldable pub expected_kind : ActionKind → Text
expected_kind build_script = text "build-script"
expected_kind cc = text "cc"
expected_kind rustc = text "rustc"
expected_kind task = text "task"

unfoldable pub validate_task_roots : List Text → Result ApiError (Unit {0})
unfolding validate_task_root
validate_task_roots [] = ok tt
validate_task_roots (root ∷ roots) = elim (validate_task_root root) [
  | err e ↦ err e
  | ok _ ↦ validate_task_roots roots
]

module _ {M B S : Type 0} (c : Config M B S) (serde : Serde) (namespace : Text) where
  unfoldable pub require_output_blobs : Digest → Digest → Text → Handler (AppState M B S) (Unit {0})
  unfolding require_blob
  require_output_blobs stdout stderr kind = do
    require_blob c namespace stdout (kind ++ text " stdout blob")
    require_blob c namespace stderr (kind ++ text " stderr blob")

  unfoldable pub validate_build_script_metadata : Value → ℕ → Handler (AppState M B S) (Unit {0})
  unfolding require_output_blobs
  validate_build_script_metadata value version = do
    require (nat_beq version 1)
        (unprocessable (text "unsupported build-script metadata schema " ++ decimal version))
    metadata ← lift (
        map_err (λ error. unprocessable (text "invalid build-script metadata: " ++ error))
          (serde.build_script_metadata value))
    require (BuildScript.validate_metadata c.protocol metadata)
        (unprocessable (text "invalid build-script metadata values"))
    require_output_blobs metadata.stdout metadata.stderr (text "build-script")

  unfoldable pub validate_cc_metadata : Value → ℕ → Handler (AppState M B S) (Unit {0})
  unfolding require_output_blobs
  validate_cc_metadata value version = do
    require (nat_beq version 1)
        (unprocessable (text "unsupported cc metadata schema " ++ decimal version))
    metadata ← lift (
        map_err (λ error. unprocessable (text "invalid cc metadata: " ++ error))
          (serde.cc_metadata value))
    require metadata.valid (unprocessable (text "invalid cc metadata values"))
    require_output_blobs metadata.stdout metadata.stderr (text "cc")

  unfoldable pub validate_task_metadata : Value → ℕ → Handler (AppState M B S) (Unit {0})
  unfolding validate_task_roots
  validate_task_metadata value version = do
    require (nat_beq version 1)
        (unprocessable (text "unsupported task metadata schema " ++ decimal version))
    metadata ← lift (
        map_err (λ error. unprocessable (text "invalid task metadata: " ++ error))
          (serde.task_metadata value))
    require (Task.validate_metadata metadata) (unprocessable (text "invalid task metadata values"))
    lift (validate_task_roots metadata.roots)

  unfoldable pub validate_rustc_metadata : Value → ℕ → Handler (AppState M B S) (Unit {0})
  unfolding require_output_blobs
  validate_rustc_metadata value version = do
    require (nat_beq version 1)
        (unprocessable (text "unsupported rustc metadata schema " ++ decimal version))
    metadata ← lift (
        map_err (λ error. unprocessable (text "invalid rustc metadata: " ++ error))
          (serde.rustc_metadata value))
    require metadata.valid (unprocessable (text "invalid rustc metadata values"))
    require_output_blobs metadata.stdout metadata.stderr (text "rustc")

  -- `match action_kind`
  unfoldable pub validate_metadata : ActionKind → Value → ℕ → Handler (AppState M B S) (Unit {0})
  unfolding validate_task_metadata validate_build_script_metadata validate_cc_metadata
      validate_rustc_metadata
  validate_metadata task = validate_task_metadata
  validate_metadata build_script = validate_build_script_metadata
  validate_metadata cc = validate_cc_metadata
  validate_metadata rustc = validate_rustc_metadata

  unfoldable pub validate_client_metadata :
      Digest → ActionKind → Handler (AppState M B S) (Unit {0})
  unfolding read_canonical_object is_object str_field u64_field expected_kind validate_metadata
  validate_client_metadata digest action_kind = do
    value ← read_canonical_object c serde namespace digest (text "client metadata")
    require (is_object value) (unprocessable (text "client metadata must be a JSON object"))
    kind ← lift (
        ok_or (str_field (text "kind") value)
          (unprocessable (text "client metadata kind is required")))
    version ← lift (
        ok_or (u64_field serde (text "version") value)
          (unprocessable (text "client metadata version is required")))
    require (kind == expected_kind action_kind)
        (unprocessable (text "client metadata kind does not match action kind"))
    validate_metadata action_kind value version
