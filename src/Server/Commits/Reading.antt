-- ===== src/Server/Commits/Reading.antt =====
-- The checks before a commit (src/server.rs) only read.
use mr_boxington_cache.Prelude.{ℕ, ◌++◌, ok_or, nat_beq}
use mr_boxington_cache.Prelude.Bytes.{Text, text}
use mr_boxington_cache.Prelude.Equality.{◌==◌, nat_eq, list_eq}
use mr_boxington_cache.Json.{Value}
use mr_boxington_cache.Protocol.{Digest}
use mr_boxington_cache.Model.Task
use mr_boxington_cache.Model.BuildScript
use mr_boxington_cache.Server.Digests.{map_err}
use mr_boxington_cache.Server.Service.{Config}
use mr_boxington_cache.Server.Serde.{Serde}
use mr_boxington_cache.Server.Objects.{is_object}
use mr_boxington_cache.Server.Descriptors.{
  ActionKind, build_script, rustc, task, str_field, u64_field, described,
  validate_action_descriptor,
}
use mr_boxington_cache.Server.ClientMetadata.{
  expected_kind, validate_task_roots, require_output_blobs, validate_build_script_metadata,
  validate_cc_metadata, validate_task_metadata, validate_rustc_metadata, validate_metadata,
  validate_client_metadata,
}
use mr_boxington_cache.Server.ReadOnly.{
  IsReadOnly, Keeps, Keeps-lift, Keeps-require, Keeps-bind, Keeps-read_canonical_object,
  Keeps-require_blob,
}

module _ {M B S : Type 0} (c : Config M B S) (only : IsReadOnly c) (serde : Serde)
    (namespace : Text) where
  pub Keeps-validate_action_descriptor :
      (digest : Digest) → Keeps (validate_action_descriptor c serde namespace digest)
  unfolding validate_action_descriptor
  Keeps-validate_action_descriptor digest =
      Keeps-bind
        (Keeps-read_canonical_object c only serde namespace digest (text "action descriptor"))
        λ value. Keeps-lift (described c.protocol serde value)

  Keeps-require_output_blobs :
      (stdout stderr : Digest) (kind : Text)
      → Keeps (require_output_blobs c serde namespace stdout stderr kind)
  unfolding require_output_blobs
  Keeps-require_output_blobs stdout stderr kind =
      Keeps-bind (Keeps-require_blob c only namespace stdout (kind ++ text " stdout blob"))
        λ u. Keeps-require_blob c only namespace stderr (kind ++ text " stderr blob")

  Keeps-validate_metadata :
      (kind : ActionKind) (value : Value) (version : ℕ)
      → Keeps (validate_metadata c serde namespace kind value version)
  unfolding validate_metadata validate_task_metadata validate_build_script_metadata
      validate_cc_metadata validate_rustc_metadata
  Keeps-validate_metadata task value version = Keeps-bind (Keeps-require (nat_beq version 1) _) λ u.
      Keeps-bind (Keeps-lift (map_err _ (serde.task_metadata value))) λ metadata.
        Keeps-bind (Keeps-require (Task.validate_metadata metadata) _)
          λ u. Keeps-lift (validate_task_roots metadata.roots)
  Keeps-validate_metadata build_script value version =
      Keeps-bind (Keeps-require (nat_beq version 1) _) λ u.
        Keeps-bind (Keeps-lift (map_err _ (serde.build_script_metadata value))) λ metadata.
          Keeps-bind (Keeps-require (BuildScript.validate_metadata c.protocol metadata) _)
            λ u. Keeps-require_output_blobs metadata.stdout metadata.stderr (text "build-script")
  Keeps-validate_metadata ActionKind.cc value version =
      Keeps-bind (Keeps-require (nat_beq version 1) _) λ u.
        Keeps-bind (Keeps-lift (map_err _ (serde.cc_metadata value))) λ metadata.
          Keeps-bind (Keeps-require metadata.valid _)
            λ u. Keeps-require_output_blobs metadata.stdout metadata.stderr (text "cc")
  Keeps-validate_metadata rustc value version =
      Keeps-bind (Keeps-require (nat_beq version 1) _) λ u.
        Keeps-bind (Keeps-lift (map_err _ (serde.rustc_metadata value))) λ metadata.
          Keeps-bind (Keeps-require metadata.valid _)
            λ u. Keeps-require_output_blobs metadata.stdout metadata.stderr (text "rustc")

  pub Keeps-validate_client_metadata :
      (digest : Digest) (kind : ActionKind)
      → Keeps (validate_client_metadata c serde namespace digest kind)
  unfolding validate_client_metadata
  Keeps-validate_client_metadata digest kind =
      Keeps-bind
        (Keeps-read_canonical_object c only serde namespace digest (text "client metadata"))
        λ value. Keeps-bind (Keeps-require (is_object value) _) λ u.
          Keeps-bind (Keeps-lift (ok_or (str_field (text "kind") value) _)) λ name.
            Keeps-bind (Keeps-lift (ok_or (u64_field serde (text "version") value) _)) λ version.
              Keeps-bind (Keeps-require (name == expected_kind kind) _)
                λ u. Keeps-validate_metadata kind value version
