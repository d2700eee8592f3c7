-- ===== src/Server/Serde.antt =====
-- What the handlers of src/server.rs take from `serde_json` and from the protocol crate: readers
-- and writers of the records that clients store, and the crate's own validations.
use mr_boxington_cache.Prelude.{ℕ, Bool, List, Option, Result}
use mr_boxington_cache.Prelude.Bytes.{Text}
use mr_boxington_cache.Protocol.{Digest}
use mr_boxington_cache.Json.{Value}
use mr_boxington_cache.Metadata.{Manifest}
use mr_boxington_cache.Model.Task.{TaskAction, TaskMetadata}
use mr_boxington_cache.Model.Rustc.{RustcAction}
use mr_boxington_cache.Model.Cc.{CcAction}
use mr_boxington_cache.Model.BuildScript.{BuildScriptAction, BuildScriptMetadata}
use mr_boxington_cache.Server.Errors.{Fault}
use mr_boxington_cache.Server.Entries.{Directory}

-- `RustcMetadata` and `CcMetadata`, as far as the service reads them: two blobs, and whether the
-- crate's `validate` accepts the record.
pub record CompilerMetadata : Type 0 where
  pub stdout : Digest
  pub stderr : Digest
  pub valid : Bool

-- An error is its text.
pub record Serde : Type 0 where
  pub value_from_slice : List ℕ → Option Value
  pub value_to_vec : Value → Result Fault (List ℕ)
  pub directory_from_slice : List ℕ → Option Directory
  pub directory_to_vec : Directory → Result Fault (List ℕ)
  pub task_action : Value → Result Text TaskAction
  pub rustc_action : Value → Result Text RustcAction
  pub cc_action : Value → Result Text CcAction
  pub build_script_action : Value → Result Text BuildScriptAction
  pub task_metadata : Value → Result Text TaskMetadata
  pub rustc_metadata : Value → Result Text CompilerMetadata
  pub cc_metadata : Value → Result Text CompilerMetadata
  pub build_script_metadata : Value → Result Text BuildScriptMetadata
  -- `{:?}` of a text
  pub debug : Text → Text
  -- `Value::as_u64` of a number's text
  pub as_u64 : Text → Option ℕ
  pub manifest_from_slice : List ℕ → Result Text Manifest
  pub canonical_json : Manifest → Result Fault (List ℕ)
  pub valid_manifest : Manifest → Bool
  pub selector_digest : Manifest → Digest
