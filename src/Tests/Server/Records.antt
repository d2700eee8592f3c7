-- ===== src/Tests/Server/Records.antt =====
-- Records that a client has stored: a tree of two directories, and the descriptor and the metadata
-- of a C compilation, each at a digest of its own.
use mr_boxington_cache.Prelude.{
  ℕ, ◌≡◌, refl, ap, true, List, [], ◌∷◌, Option, none, some, Result, ok, err, is_empty,
  if◌then◌else◌,
}
use mr_boxington_cache.Prelude.Bytes.{text}
use mr_boxington_cache.Prelude.Equality.{◌==◌, nat_eq, list_eq}
use mr_boxington_cache.Json.{Value, string, number, object, end, field, get}
use mr_boxington_cache.Protocol.{Digest}
use mr_boxington_cache.Metadata.{ActionResult, Manifest}
use mr_boxington_cache.Metadata.Memory.{MemoryMetadata}
use mr_boxington_cache.Model.Cc.{CcAction}
use mr_boxington_cache.Server.Entries.{Directory}
use mr_boxington_cache.Server.Service.{AppState}
use mr_boxington_cache.Server.Serde.{Serde}
use mr_boxington_cache.Server.ReadOnly.{IsReadOnly}
use mr_boxington_cache.Server.Lookups.Missing.{in_memory}
use mr_boxington_cache.Server.Commits.Publish.{in_memory-IsReadOnly}
use mr_boxington_cache.Tests.Metadata.{json}
use mr_boxington_cache.Tests.Server.Samples.{config, state, digest, objects, Objects}

abbrev pub leaf : Digest
leaf = record digest { size = 10 }

abbrev pub top : Digest
top = record digest { size = 11 }

abbrev pub descriptor : Digest
descriptor = record digest { size = 12 }

abbrev pub metadata : Digest
metadata = record digest { size = 13 }

abbrev leaf_directory : Directory
leaf_directory = record { version = 1; directories = []; files = []; symlinks = [] }

-- Two names for one subdirectory.
abbrev top_directory : Directory
top_directory = record {
  version = 1;
  directories =
      record { name = text "a"; mode = 493; digest = leaf }
      ∷ record { name = text "b"; mode = 493; digest = leaf }
      ∷ [];
  files = [];
  symlinks = [];
}

abbrev pub action : CcAction
action = record {
  version = 1;
  kind = text "cc";
  adapter_version = 1;
  assembly_input_model = none;
  path_binding = none;
  preprocessing = none;
  compiler = record {
    assembler = text "as";
    family = text "gcc";
    target = text "x86";
    version_text = text "13";
  };
  arguments = text "-O2" ∷ [];
  environment = [];
  inputs = record { digest = leaf; path = text "a.c" } ∷ [];
}

abbrev pub described_value : Value
described_value =
    object
      (field (text "kind") (string (text "cc")) (field (text "version") (number (text "1")) end))

abbrev metadata_value : Value
metadata_value = object (
    field (text "kind") (string (text "cc"))
      (field (text "version") (number (text "1")) (field (text "stdout") (string (text "..")) end)))

abbrev pub manifest : Manifest
manifest = record { version = 1; task = text "build"; predictions = [] }

abbrev written : Option Value → List ℕ
written none = text "D"
written (some v) = text "M"

abbrev pub serde : Serde
serde = record {
  value_from_slice = λ bytes.
      if bytes == text "D"
      then some described_value
      else if bytes == text "M"
      then some metadata_value
      else none;
  value_to_vec = λ value. ok (written (get (text "stdout") value));
  directory_from_slice = λ bytes.
      if bytes == text "L"
      then some leaf_directory
      else if bytes == text "T"
      then some top_directory
      else none;
  directory_to_vec =
      λ directory. ok (if is_empty directory.directories then text "L" else text "T");
  task_action = λ value. err (text "not a task");
  rustc_action = λ value. err (text "not rustc");
  cc_action = λ value. ok action;
  build_script_action = λ value. err (text "not a build script");
  task_metadata = λ value. err (text "not a task");
  rustc_metadata = λ value. err (text "not rustc");
  cc_metadata = λ value. ok (record { stdout = leaf; stderr = leaf; valid = true });
  build_script_metadata = λ value. err (text "not a build script");
  debug = λ t. t;
  as_u64 = λ digits. if digits == text "1" then some 1 else none;
  manifest_from_slice =
      λ bytes. if bytes == text "P" then ok manifest else err (text "not a manifest");
  canonical_json = λ m. ok (text "P");
  valid_manifest = λ m. true;
  selector_digest = λ m. leaf;
}

-- All four are visible to `team`, and held.
abbrev pub stored : AppState MemoryMetadata Objects ℕ
stored = record state {
  metadata = record {
    entries = [];
    blobs =
        (text "team", leaf)
        ∷ (text "team", top)
        ∷ (text "team", descriptor)
        ∷ (text "team", metadata)
        ∷ [];
    manifests = [];
  };
  blobs = (leaf, text "L") ∷ (top, text "T") ∷ (descriptor, text "D") ∷ (metadata, text "M") ∷ [];
}

abbrev pub result : ActionResult
result = record {
  version = 1;
  action = descriptor;
  metadata = some metadata;
  output_root = some top;
}

pub objects-same : (d : Digest) (held : Objects) → (objects.get d held).1 ≡ held
objects-same d held = refl

pub config-IsReadOnly : IsReadOnly (in_memory json config)
config-IsReadOnly = in_memory-IsReadOnly json config objects-same

-- An answer with the state that it leaves.
pub with_state : {E S A : Type 0} (p : Result E A × S) (a : A) → p.0 ≡ ok a → p ≡ (ok a, p.1)
with_state p a e = ap (λ r. (r, p.1)) e
