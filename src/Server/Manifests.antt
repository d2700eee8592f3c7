-- ===== src/Server/Manifests.antt =====
-- Task action manifests over HTTP: `get_action_manifest` and `put_action_manifest` of
-- src/server.rs.
pub mod Merge
use mr_boxington_cache.Prelude.{
  ℕ, Bool, true, false, not, ◌&&◌, List, [], ◌∷◌, ◌++◌, Option, none, some, Result, ok, err, ok_or,
  if◌then◌else◌,
}
use mr_boxington_cache.Prelude.Bytes.{Text, text}
use mr_boxington_cache.Prelude.Equality.{◌==◌}
use mr_boxington_cache.Protocol.{Digest, digest_eq, blake3}
use mr_boxington_cache.Metadata.{Manifest, ManifestRecord, ManifestCommitOutcome}
use mr_boxington_cache.Auth.{Headers, read, write, authorize}
use mr_boxington_cache.Server.Errors.{
  ApiError, bad_request, not_found, precondition, too_large, internal,
}
use mr_boxington_cache.Server.Digests.{map_err, parse_action_digest}
use mr_boxington_cache.Server.Preconditions.{manifest_precondition, quoted_etag}
use mr_boxington_cache.Server.Service.{AppState, Config}
use mr_boxington_cache.Server.Serde.{Serde}
use mr_boxington_cache.Server.Handler.{Handler, pure, fail, lift, require, on_metadata, ◌>>=◌, ◌>>◌}

-- The responses: status, entity tag and body.
pub record Response : Type 0 where
  pub status : ℕ
  pub etag : Text
  pub body : List ℕ

abbrev pub max_action_manifest_bytes : ℕ
max_action_manifest_bytes = 16777216

module _ {M B S : Type 0} (c : Config M B S) (serde : Serde) where
  unfoldable pub get_action_manifest : Headers → Text → Text → ℕ → Handler (AppState M B S) Response
  unfolding authorize parse_action_digest quoted_etag
  get_action_manifest headers algorithm hash size = do
    namespace ← lift (authorize c.tokens c.auth headers read)
    key ← lift (parse_action_digest c.protocol algorithm hash size)
    found ← on_metadata (c.store.get_manifest namespace key)
    stored ← lift (ok_or found (not_found (text "action manifest not found")))
    body ← lift (map_err internal (serde.canonical_json stored.manifest))
    pure (record { status = 200; etag = quoted_etag stored.etag; body = body })

  unfoldable pub manifest_status : ManifestCommitOutcome → Result ApiError ℕ
  manifest_status ManifestCommitOutcome.created = ok 201
  manifest_status ManifestCommitOutcome.updated = ok 204
  manifest_status ManifestCommitOutcome.precondition_failed =
      err (precondition (text "action manifest changed; read and merge it before retrying"))

  -- The manifest's tag is that of its canonical bytes, which are what a client reads back.
  unfoldable pub store_manifest :
      Text → Digest → Option Text → Manifest → Handler (AppState M B S) Response
  unfolding quoted_etag manifest_status
  store_manifest namespace key expected_etag manifest = do
    bytes ← lift (map_err internal (serde.canonical_json manifest))
    let etag = c.protocol.hex_encode (c.hash blake3 bytes)
    outcome ← on_metadata (c.store.commit_manifest namespace key expected_etag etag manifest)
    status ← lift (manifest_status outcome)
    pure (record { status = status; etag = quoted_etag etag; body = [] })

  -- `to_bytes` is what the request's body gives under a limit.
  unfoldable pub put_action_manifest :
      Headers → Text → Text → ℕ → (ℕ → Option (List ℕ)) → Handler (AppState M B S) Response
  unfolding authorize parse_action_digest manifest_precondition store_manifest
  put_action_manifest headers algorithm hash size to_bytes = do
    namespace ← lift (authorize c.tokens c.auth headers write)
    body ← lift (
        ok_or (to_bytes max_action_manifest_bytes)
          (too_large (text "action manifest is too large")))
    manifest ← lift (
        map_err (λ error. bad_request (text "invalid action manifest: " ++ error))
          (serde.manifest_from_slice body))
    key ← lift (parse_action_digest c.protocol algorithm hash size)
    require (serde.valid_manifest manifest && serde.selector_digest manifest == key)
        (bad_request (text "action manifest does not match request"))
    expected_etag ← lift (manifest_precondition headers)
    store_manifest namespace key expected_etag manifest
