-- ===== src/Metadata/Memory.antt =====
-- `MemoryMetadata` of src/metadata/memory.rs. Each operation takes its lock for its whole length,
-- so it is one step of the store's state.
pub mod Laws
pub mod Recommit
use mr_boxington_cache.Prelude.{
  ℕ, ◌+◌, ◌≡◌, Bool, true, false, not, List, [], ◌∷◌, Option, none, some, Result, ok, err, keep,
  if◌then◌else◌,
}
use mr_boxington_cache.Prelude.Bytes.{Text}
use mr_boxington_cache.Prelude.Equality.{◌==◌, nat_eq, list_eq, contains, insert, remove}
use mr_boxington_cache.Prelude.Maps
use mr_boxington_cache.Protocol.{Digest, Key, digest_eq, key_eq}
use mr_boxington_cache.Server.Errors.{Fault}
use mr_boxington_cache.Metadata.{
  ActionResult, Manifest, PutOutcome, CommitOutcome, ManifestCommitOutcome, ManifestRecord, Access,
  MetadataStore, get_batch_default,
}

-- `serde_json::to_vec` and `serde_json::from_slice` on action results.
pub record Json : Type 0 where
  pub to_vec : ActionResult → Result Fault (List ℕ)
  pub from_slice : List ℕ → Result Fault ActionResult

-- What is written is read back.
pub record IsJson (j : Json) : Type 0 where
  pub from-to :
      (r : ActionResult) (bytes : List ℕ) → j.to_vec r ≡ ok bytes → j.from_slice bytes ≡ ok r

pub record MemoryMetadata : Type 0 where
  pub entries : List (Key × List ℕ)
  pub blobs : List Key
  pub manifests : List (Key × ManifestRecord)

abbrev pub empty : MemoryMetadata
empty = record { entries = []; blobs = []; manifests = [] }

unfoldable pub visible_blobs : Text → List Digest → Access MemoryMetadata (List Digest)
visible_blobs namespace digests m =
    (ok (keep (λ digest. contains m.blobs (namespace, digest)) digests), m)

-- Nothing here ages out, so what the put did to the object does not matter.
unfoldable pub register_blob : Text → Digest → PutOutcome → Access MemoryMetadata (Unit {0})
register_blob namespace digest stored m =
    (ok tt, record m { blobs = (insert m.blobs (namespace, digest)).1 })

unfoldable pub forget_blob : Text → Digest → Access MemoryMetadata (Unit {0})
forget_blob namespace digest m = (ok tt, record m { blobs = remove m.blobs (namespace, digest) })

-- The trait's default: no durable metadata to write.
unfoldable pub touch_blobs : Text → List Digest → Access MemoryMetadata (Unit {0})
touch_blobs namespace digests m = (ok tt, m)

-- `map(from_slice).transpose()`
decoded : Json → Option (List ℕ) → Result Fault (Option ActionResult)
decoded j none = ok none
decoded j (some bytes) = elim (j.from_slice bytes) [ ok r ↦ ok (some r) | err e ↦ err e ]

unfoldable pub get : Json → Text → Digest → Access MemoryMetadata (Option ActionResult)
unfolding decoded
get j namespace action m = (decoded j (Maps.lookup (namespace, action) m.entries), m)

unfoldable pub get_batch : Json → Text → List Digest → Access MemoryMetadata (List ActionResult)
unfolding get_batch_default
get_batch j = get_batch_default (get j)

commit_encoded : Text → Digest → Result Fault (List ℕ) → Access MemoryMetadata CommitOutcome
commit_encoded namespace action (err e) m = (err e, m)
commit_encoded namespace action (ok encoded) m = elim (Maps.lookup (namespace, action) m.entries) [
  | none ↦ (
    ok CommitOutcome.created,
    record m { entries = Maps.insert (namespace, action) encoded m.entries },
  )
  | some existing ↦
      if existing == encoded
      then (ok CommitOutcome.already_exists, m)
      else (ok CommitOutcome.conflict, m)
]

unfoldable pub commit : Json → Text → Digest → ActionResult → Access MemoryMetadata CommitOutcome
unfolding commit_encoded
commit j namespace action result = commit_encoded namespace action (j.to_vec result)

unfoldable pub get_manifest : Text → Digest → Access MemoryMetadata (Option ManifestRecord)
get_manifest namespace key m = (ok (Maps.lookup (namespace, key) m.manifests), m)

-- The precondition holds: nothing is there and nothing is expected, or the entity tags agree.
unfoldable pub etag_matches : Option ManifestRecord → Option Text → Bool
etag_matches none none = true
etag_matches (some current) (some expected) = current.etag == expected
etag_matches _ _ = false

manifest_outcome : Option ManifestRecord → ManifestCommitOutcome
manifest_outcome none = ManifestCommitOutcome.created
manifest_outcome (some current) = ManifestCommitOutcome.updated

unfoldable pub commit_manifest :
    Text → Digest → Option Text → Text → Manifest → Access MemoryMetadata ManifestCommitOutcome
unfolding etag_matches manifest_outcome
commit_manifest namespace key expected_etag etag manifest m =
    let entry = Maps.lookup (namespace, key) m.manifests in
    if not (etag_matches entry expected_etag)
    then (ok ManifestCommitOutcome.precondition_failed, m)
    else (
      ok (manifest_outcome entry),
      record m {
        manifests =
            Maps.insert (namespace, key) (record { etag = etag; manifest = manifest }) m.manifests;
      },
    )

-- The trait's implementation.
abbrev pub memory_store : Json → MetadataStore MemoryMetadata
memory_store j = record {
  visible_blobs = visible_blobs;
  register_blob = register_blob;
  forget_blob = forget_blob;
  touch_blobs = touch_blobs;
  get = get j;
  get_batch = get_batch j;
  commit = commit j;
  get_manifest = get_manifest;
  commit_manifest = commit_manifest;
}
