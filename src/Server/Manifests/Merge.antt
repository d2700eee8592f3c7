-- ===== src/Server/Manifests/Merge.antt =====
-- Putting and getting a task action manifest (src/server.rs), with the store of
-- src/metadata/memory.rs.
use mr_boxington_cache.Prelude.{
  ℕ, ◌≡◌, ◌≢◌, sym, ap, ◌∙◌, true, ◌&&◌, List, Option, some, ok, ok_or, err_not_ok,
}
use mr_boxington_cache.Prelude.Bytes.{Text}
use mr_boxington_cache.Prelude.Equality.{◌==◌}
use mr_boxington_cache.Protocol.{Digest, digest_eq, blake3}
use mr_boxington_cache.Metadata.{Manifest, ManifestRecord, ManifestCommitOutcome}
use mr_boxington_cache.Metadata.Memory.{Json, MemoryMetadata, get_manifest}
use mr_boxington_cache.Metadata.Memory.Laws.{get_manifest-commit_manifest}
use mr_boxington_cache.Auth.{Headers, read, write, authorize}
use mr_boxington_cache.Server.Errors.{internal}
use mr_boxington_cache.Server.Digests.{map_err, map_err-eq-ok, parse_action_digest}
use mr_boxington_cache.Server.Preconditions.{manifest_precondition, quoted_etag}
use mr_boxington_cache.Server.Service.{AppState, Config}
use mr_boxington_cache.Server.Serde.{Serde}
use mr_boxington_cache.Server.Lookups.Missing.{in_memory}
use mr_boxington_cache.Server.Handler.{
  on_metadata, continue-eq-ok, require-then, lift-then, pure-eq-ok,
}
use mr_boxington_cache.Server.Manifests.{
  Response, max_action_manifest_bytes, get_action_manifest, manifest_status, store_manifest,
  put_action_manifest,
}

module _ {M B S : Type 0} (c : Config M B S) (serde : Serde) (s s' : AppState M B S)
    (r : Response) where
  -- What a manifest that was stored has shown.
  pub record IsStored (namespace : Text) (key : Digest) (expected : Option Text)
      (manifest : Manifest) : Type 0 where
    pub bytes : List ℕ
    pub outcome : ManifestCommitOutcome
    pub canonical : serde.canonical_json manifest ≡ ok bytes
    pub committed :
        (c.store.commit_manifest namespace key expected
          (c.protocol.hex_encode (c.hash blake3 bytes))
          manifest
          s.metadata).0
        ≡ ok outcome
    pub answered : manifest_status c serde outcome ≡ ok r.status
    pub tagged : r.etag ≡ quoted_etag (c.protocol.hex_encode (c.hash blake3 bytes))
    pub left : s' ≡ record s {
      metadata =
          (c.store.commit_manifest namespace key expected
            (c.protocol.hex_encode (c.hash blake3 bytes))
            manifest
            s.metadata).1;
    }

  store_manifest-IsStored :
      (namespace : Text) (key : Digest) (expected : Option Text) (manifest : Manifest)
      → store_manifest c serde namespace key expected manifest s ≡ (ok r, s')
      → IsStored namespace key expected manifest
  unfolding store_manifest
  store_manifest-IsStored namespace key expected manifest e =
      let (bytes, canonical, r7) =
        lift-then (map_err internal (serde.canonical_json manifest)) _ s e in
      let etag = c.protocol.hex_encode (c.hash blake3 bytes) in
      let (outcome, s1, done, r8) =
        continue-eq-ok _
          (on_metadata (c.store.commit_manifest namespace key expected etag manifest) s) r7 in
      let (status, answered, r9) = lift-then (manifest_status c serde outcome) _ s1 r8 in
      let (same, left) = pure-eq-ok r9 in
      record {
        bytes = bytes;
        outcome = outcome;
        canonical = map_err-eq-ok internal (serde.canonical_json manifest) bytes canonical;
        committed =
            map_err-eq-ok internal
              (c.store.commit_manifest namespace key expected etag manifest s.metadata).0 outcome
              (ap (λ p. p.0) done);
        answered = answered ∙ ap (λ (x : Response). ok x.status) same;
        tagged = sym (ap (λ (x : Response). x.etag) same);
        left = sym left ∙ sym (ap (λ p. p.1) done);
      }

  pub record IsMerged (headers : Headers) (algorithm hash : Text) (size : ℕ) : Type 0 where
    pub namespace : Text
    pub key : Digest
    pub manifest : Manifest
    pub expected : Option Text
    pub authorized : authorize c.tokens c.auth headers write ≡ ok namespace
    pub parsed : parse_action_digest c.protocol algorithm hash size ≡ ok key
    pub selected : (serde.valid_manifest manifest && serde.selector_digest manifest == key) ≡ true
    pub conditional : manifest_precondition headers ≡ ok expected
    pub stored : IsStored namespace key expected manifest

  pub put_action_manifest-IsMerged :
      (headers : Headers) (algorithm hash : Text) (size : ℕ) (to_bytes : ℕ → Option (List ℕ))
      → put_action_manifest c serde headers algorithm hash size to_bytes s ≡ (ok r, s')
      → IsMerged headers algorithm hash size
  unfolding put_action_manifest
  put_action_manifest-IsMerged headers algorithm hash size to_bytes e =
      let (namespace, authorized, r1) = lift-then (authorize c.tokens c.auth headers write) _ s e in
      let (body, u1, r2) = lift-then (ok_or (to_bytes max_action_manifest_bytes) _) _ s r1 in
      let (manifest, u2, r3) = lift-then (map_err _ (serde.manifest_from_slice body)) _ s r2 in
      let (key, parsed, r4) =
        lift-then (parse_action_digest c.protocol algorithm hash size) _ s r3 in
      let (selected, r5) =
        require-then (serde.valid_manifest manifest && serde.selector_digest manifest == key) _ _ s
          r4 in
      let (expected, conditional, r6) = lift-then (manifest_precondition headers) _ s r5 in
      record {
        namespace = namespace;
        key = key;
        manifest = manifest;
        expected = expected;
        authorized = authorized;
        parsed = parsed;
        selected = selected;
        conditional = conditional;
        stored = store_manifest-IsStored namespace key expected manifest r6;
      }

stored_status :
    {M B S : Type 0} (c : Config M B S) (serde : Serde) (outcome : ManifestCommitOutcome)
    (status : ℕ)
    → manifest_status c serde outcome ≡ ok status
    → outcome ≢ ManifestCommitOutcome.precondition_failed
unfolding manifest_status
stored_status c serde ManifestCommitOutcome.created status h e = absurd cc
stored_status c serde ManifestCommitOutcome.updated status h e = absurd cc
stored_status c serde ManifestCommitOutcome.precondition_failed status h e = absurd (err_not_ok h)

get_action_manifest-found :
    {B S : Type 0} (j : Json) (c : Config MemoryMetadata B S) (serde : Serde) (readers : Headers)
    (algorithm hash : Text) (size : ℕ) (s : AppState MemoryMetadata B S) (namespace : Text)
    (key : Digest) (held : ManifestRecord) (bytes : List ℕ)
    → authorize c.tokens c.auth readers read ≡ ok namespace
    → parse_action_digest c.protocol algorithm hash size ≡ ok key
    → (get_manifest namespace key s.metadata).0 ≡ ok (some held)
    → serde.canonical_json held.manifest ≡ ok bytes
    → (get_action_manifest (in_memory j c) serde readers algorithm hash size s).0
      ≡ ok (record { status = 200; etag = quoted_etag held.etag; body = bytes })
unfolding get_action_manifest
get_action_manifest-found j c serde readers algorithm hash size s namespace key held bytes may
      parsed found canonical =
    rw (get_action_manifest, may, parsed, found, canonical)

-- With the store in memory: after `put_action_manifest` has answered with success,
-- `get_action_manifest` for the same digest answers 200 to each request that may read the
-- namespace, with the entity tag that the put answered; and the tag is the quoted BLAKE3 hash, in
-- hexadecimal, of the very bytes that it serves.
pub put_action_manifest-get_action_manifest :
    {B S : Type 0} (j : Json) (c : Config MemoryMetadata B S) (serde : Serde)
    (headers readers : Headers) (algorithm hash : Text) (size : ℕ) (to_bytes : ℕ → Option (List ℕ))
    (s s' : AppState MemoryMetadata B S) (r : Response)
    → put_action_manifest (in_memory j c) serde headers algorithm hash size to_bytes s ≡ (ok r, s')
    → authorize c.tokens c.auth readers read ≡ authorize c.tokens c.auth headers write
    → (bytes : List ℕ) × (r.etag ≡ quoted_etag (c.protocol.hex_encode (c.hash blake3 bytes)))
      × ((get_action_manifest (in_memory j c) serde readers algorithm hash size s').0
          ≡ ok (record { status = 200; etag = r.etag; body = bytes }))
put_action_manifest-get_action_manifest {B} {S} j c serde headers readers algorithm hash size
      to_bytes s s' r e same_namespace =
    let merged =
      put_action_manifest-IsMerged (in_memory j c) serde s s' r headers algorithm hash size to_bytes
        e in
    let put = merged.stored in
    let etag = c.protocol.hex_encode (c.hash blake3 put.bytes) in
    let there =
      get_manifest-commit_manifest merged.namespace merged.key merged.expected etag merged.manifest
        s.metadata put.outcome put.committed
        (stored_status (in_memory j c) serde put.outcome r.status put.answered) in
    (
      put.bytes,
      put.tagged,
      get_action_manifest-found j c serde readers algorithm hash size s' merged.namespace merged.key
            (record { etag = etag; manifest = merged.manifest }) put.bytes
            (same_namespace ∙ merged.authorized) merged.parsed
            (ap
                (λ (t : AppState MemoryMetadata B S).
                  (get_manifest merged.namespace merged.key t.metadata).0)
                put.left
              ∙ there)
            put.canonical
          ∙ ap (λ (t : Text). ok (record { status = 200; etag = t; body = put.bytes }))
              (sym put.tagged),
    )
