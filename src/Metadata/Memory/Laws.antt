-- ===== src/Metadata/Memory/Laws.antt =====
-- What `MemoryMetadata` (src/metadata/memory.rs) promises: action results that never change,
-- manifests that change one writer at a time, and blobs that are visible by namespace.
use mr_boxington_cache.Prelude.{
  ℕ, ◌≡◌, ◌≢◌, refl, ap, ◌∙◌, false, List, [], ◌∷◌, Option, none, some, ok, err, arith,
  Option-cases, inl, inr, Result-cases,
}
use mr_boxington_cache.Prelude.Bytes.{Text}
use mr_boxington_cache.Prelude.Equality.{nat_eq, list_eq, eq_iff, eq_refl}
use mr_boxington_cache.Prelude.Maps
use mr_boxington_cache.Prelude.Maps.{lookup-insert}
use mr_boxington_cache.Protocol.{Digest, Key, digest_eq, key_eq}
use mr_boxington_cache.Server.Errors.{Fault}
use mr_boxington_cache.Metadata.{
  ActionResult, Manifest, PutOutcome, CommitOutcome, ManifestCommitOutcome,
}
use mr_boxington_cache.Metadata.Memory.{
  Json, IsJson, MemoryMetadata, register_blob, forget_blob, get, commit, commit_encoded, decoded,
  get_manifest, commit_manifest, etag_matches,
}

-- The operations that change the store.
pub data Op : Type 0 where
  register : Text → Digest → PutOutcome → Op
  forget : Text → Digest → Op
  put_result : Text → Digest → ActionResult → Op
  put_manifest : Text → Digest → Option Text → Text → Manifest → Op

unfoldable pub apply : Json → Op → MemoryMetadata → MemoryMetadata
apply j (register n d stored) m = (register_blob n d stored m).1
apply j (forget n d) m = (forget_blob n d m).1
apply j (put_result n a r) m = (commit j n a r m).1
apply j (put_manifest n k expected etag manifest) m =
    (commit_manifest n k expected etag manifest m).1

-- Any requests, one after the other.
unfoldable pub run : Json → List Op → MemoryMetadata → MemoryMetadata
run j [] m = m
run j (op ∷ ops) m = run j ops (apply j op m)

abbrev pub entry : MemoryMetadata → Key → Option (List ℕ)
entry m k = Maps.lookup k m.entries

entry-commit :
    (j : Json) (n : Text) (a : Digest) (r : ActionResult) (m : MemoryMetadata) (k : Key)
    (bytes : List ℕ)
    → entry m k ≡ some bytes
    → entry (commit j n a r m).1 k ≡ some bytes
unfolding commit
entry-commit j n a r m k bytes e = elim (Result-cases (j.to_vec r)) [
  | inr (x, t) ↦ rw (t, commit_encoded) e
  | inl (encoded, t) ↦
      ground (arith, t, lookup-insert (n, a) k encoded m.entries, eq_iff {A = Key} (n, a) k)
]

entry-apply :
    (j : Json) (op : Op) (m : MemoryMetadata) (k : Key) (bytes : List ℕ)
    → entry m k ≡ some bytes
    → entry (apply j op m) k ≡ some bytes
unfolding apply register_blob forget_blob commit_manifest
entry-apply j (register n d stored) m k bytes e = e
entry-apply j (forget n d) m k bytes e = e
entry-apply j (put_result n a r) m k bytes e = entry-commit j n a r m k bytes e
entry-apply j (put_manifest n k' expected etag manifest) m k bytes e = ground arith

pub entry-run :
    (j : Json) (ops : List Op) (m : MemoryMetadata) (k : Key) (bytes : List ℕ)
    → entry m k ≡ some bytes
    → entry (run j ops m) k ≡ some bytes
unfolding run
entry-run j [] m k bytes e = e
entry-run j (op ∷ ops) m k bytes e =
    entry-run j ops (apply j op m) k bytes (entry-apply j op m k bytes e)

-- A commit that did not fail and did not conflict has left the encoded result in the store.
commit_encoded-entry :
    (n : Text) (a : Digest) (encoded : List ℕ) (m : MemoryMetadata) (outcome : CommitOutcome)
    → (commit_encoded n a (ok encoded) m).0 ≡ ok outcome
    → outcome ≢ CommitOutcome.conflict
    → entry (commit_encoded n a (ok encoded) m).1 (n, a) ≡ some encoded
unfolding commit_encoded
commit_encoded-entry n a encoded m outcome e fine = elim (Option-cases (entry m (n, a))) [
  | inl none_there ↦
      ground (arith, lookup-insert (n, a) (n, a) encoded m.entries, eq_refl {A = Key} (n, a))
  | inr (existing, there) ↦ ground (arith, eq_iff existing encoded)
]

pub commit-entry :
    (j : Json) (n : Text) (a : Digest) (r : ActionResult) (m : MemoryMetadata)
    (outcome : CommitOutcome)
    → (commit j n a r m).0 ≡ ok outcome
    → outcome ≢ CommitOutcome.conflict
    → (bytes : List ℕ) × (j.to_vec r ≡ ok bytes) × (entry (commit j n a r m).1 (n, a) ≡ some bytes)
unfolding commit
commit-entry j n a r m outcome e fine = elim (Result-cases (j.to_vec r)) [
  | inr (x, t) ↦ absurd (cc (commit_fails x t))
  | inl (encoded, t) ↦
      (encoded, t, rw t (commit_encoded-entry n a encoded m outcome (rw t at e) fine))
]
  where
    commit_fails : (x : Fault) → j.to_vec r ≡ err x → (commit j n a r m).0 ≡ err x
    commit_fails x t = rw (t, commit_encoded)

decoded-to_vec :
    (j : Json)
    → IsJson j
    → (r : ActionResult) (bytes : List ℕ) → j.to_vec r ≡ ok bytes
    → decoded j (some bytes) ≡ ok (some r)
unfolding decoded
decoded-to_vec j laws r bytes t = rw (laws.from-to r bytes t, decoded)

get-entry :
    (j : Json) (n : Text) (a : Digest) (m : MemoryMetadata) (bytes : List ℕ)
    → entry m (n, a) ≡ some bytes
    → (get j n a m).0 ≡ decoded j (some bytes)
unfolding get
get-entry j n a m bytes e = ap (decoded j) e

-- An action result that a commit created, or found already there, is what every later `get`
-- returns, where an encoded result is read back as itself, whatever the store is asked to do in between.
pub get-run-commit :
    (j : Json)
    → IsJson j
    → (n : Text) (a : Digest) (r : ActionResult) (m : MemoryMetadata) (outcome : CommitOutcome)
      (ops : List Op)
    → (commit j n a r m).0 ≡ ok outcome
    → outcome ≢ CommitOutcome.conflict
    → (get j n a (run j ops (commit j n a r m).1)).0 ≡ ok (some r)
get-run-commit j laws n a r m outcome ops e fine =
    let (bytes, t, stored) = commit-entry j n a r m outcome e fine in
    get-entry j n a (run j ops (commit j n a r m).1) bytes
      (entry-run j ops (commit j n a r m).1 (n, a) bytes stored)
    ∙ decoded-to_vec j laws r bytes t

-- The store with a manifest under a key.
abbrev stored : Text → Digest → Text → Manifest → MemoryMetadata → MemoryMetadata
stored n k etag manifest m = record m {
  manifests = Maps.insert (n, k) (record { etag = etag; manifest = manifest }) m.manifests;
}

accepted :
    (n : Text) (k : Digest) (expected : Option Text) (etag : Text) (manifest : Manifest)
    (m : MemoryMetadata) (outcome : ManifestCommitOutcome)
    → (commit_manifest n k expected etag manifest m).0 ≡ ok outcome
    → outcome ≢ ManifestCommitOutcome.precondition_failed
    → (commit_manifest n k expected etag manifest m).1 ≡ stored n k etag manifest m
unfolding commit_manifest
accepted n k expected etag manifest m outcome e fine = ground arith

etag_matches-ne :
    (expected : Option Text) (etag : Text) (manifest : Manifest)
    → expected ≢ some etag
    → etag_matches (some (record { etag = etag; manifest = manifest })) expected ≡ false
unfolding etag_matches
etag_matches-ne none etag manifest changed = refl
etag_matches-ne (some x) etag manifest changed = ground (arith, eq_iff etag x)

lookup-stored :
    (n : Text) (k : Digest) (etag : Text) (manifest : Manifest) (m : MemoryMetadata)
    → Maps.lookup (n, k) (stored n k etag manifest m).manifests
      ≡ some (record { etag = etag; manifest = manifest })
lookup-stored n k etag manifest m =
    lookup-insert (n, k) (n, k) _ m.manifests ∙ rw (eq_refl {A = Key} (n, k))

refused_after :
    (n : Text) (k : Digest) (expected : Option Text) (etag etag' : Text)
    (manifest manifest' : Manifest) (m : MemoryMetadata)
    → expected ≢ some etag
    → commit_manifest n k expected etag' manifest' (stored n k etag manifest m)
      ≡ (ok ManifestCommitOutcome.precondition_failed, stored n k etag manifest m)
unfolding commit_manifest
refused_after n k expected etag etag' manifest manifest' m changed =
    rw (lookup-stored n k etag manifest m, etag_matches-ne expected etag manifest changed)

-- A manifest's writers take turns. When one has replaced or created the manifest under a tag that
-- is not the one it expected, another that still expects what the first expected is refused, and
-- the first one's manifest stays.
pub commit_manifest-commit_manifest :
    (n : Text) (k : Digest) (expected : Option Text) (etag etag' : Text)
    (manifest manifest' : Manifest) (m : MemoryMetadata) (outcome : ManifestCommitOutcome)
    → (commit_manifest n k expected etag manifest m).0 ≡ ok outcome
    → outcome ≢ ManifestCommitOutcome.precondition_failed
    → expected ≢ some etag
    → (commit_manifest n k expected etag' manifest' (commit_manifest n k expected etag manifest m).1
        ≡ (
          ok ManifestCommitOutcome.precondition_failed,
          (commit_manifest n k expected etag manifest m).1,
        ))
      × ((get_manifest n k (commit_manifest n k expected etag manifest m).1).0
          ≡ ok (some (record { etag = etag; manifest = manifest })))
commit_manifest-commit_manifest n k expected etag etag' manifest manifest' m outcome e fine
      changed =
    rw (accepted n k expected etag manifest m outcome e fine) (
      refused_after n k expected etag etag' manifest manifest' m changed,
      unfold get_manifest in ap ok (lookup-stored n k etag manifest m),
    )

-- What a commit of a manifest has stored is read back.
pub get_manifest-commit_manifest :
    (n : Text) (k : Digest) (expected : Option Text) (etag : Text) (manifest : Manifest)
    (m : MemoryMetadata) (outcome : ManifestCommitOutcome)
    → (commit_manifest n k expected etag manifest m).0 ≡ ok outcome
    → outcome ≢ ManifestCommitOutcome.precondition_failed
    → (get_manifest n k (commit_manifest n k expected etag manifest m).1).0
      ≡ ok (some (record { etag = etag; manifest = manifest }))
get_manifest-commit_manifest n k expected etag manifest m outcome e fine =
    rw (accepted n k expected etag manifest m outcome e fine)
      (unfold get_manifest in ap ok (lookup-stored n k etag manifest m))
