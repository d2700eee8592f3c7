-- ===== src/Server/Objects.antt =====
-- Reading stored records back: the steps that `validate_tree` and `read_canonical_object` of
-- src/server.rs share, and the latter.
use mr_boxington_cache.Prelude.{
  ℕ, Bool, true, false, List, [], ◌∷◌, ◌++◌, Option, none, some, Result, ok, err, ok_or, leb,
}
use mr_boxington_cache.Prelude.Bytes.{Text, text}
use mr_boxington_cache.Prelude.Equality.{◌==◌, nat_eq, list_eq}
use mr_boxington_cache.Json.{Value, object}
use mr_boxington_cache.Protocol.{Digest}
use mr_boxington_cache.Metadata.{blob_visible}
use mr_boxington_cache.Server.Errors.{ApiError, Fault, internal, unprocessable}
use mr_boxington_cache.Server.Digests.{map_err, validate_digest}
use mr_boxington_cache.Server.Service.{AppState, Blob, Config}
use mr_boxington_cache.Server.Blobs.{forget_missing_blob}
use mr_boxington_cache.Server.Serde.{Serde}
use mr_boxington_cache.Server.Handler.{
  Handler, pure, fail, lift, require, modify, on_metadata, on_blobs, ◌>>=◌, ◌>>◌,
}

-- `while let Some(chunk) = stream.next().await { bytes.extend_from_slice(&chunk?) }`
unfoldable pub collect : List (Result Fault (List ℕ)) → Result Fault (List ℕ)
collect [] = ok []
collect (err e ∷ chunks) = err e
collect (ok chunk ∷ chunks) = elim (collect chunks) [ err e ↦ err e | ok rest ↦ ok (chunk ++ rest) ]

abbrev pub max_object_bytes : ℕ
max_object_bytes = 16777216

-- `Value::is_object`
unfoldable pub is_object : Value → Bool
is_object (object fields) = true
is_object _ = false

module _ {M B S : Type 0} (c : Config M B S) where
  -- The blob's bytes; one that storage has lost is forgotten and answered as missing.
  unfoldable pub stored_bytes :
      Text → Digest → ApiError → Option Blob → Handler (AppState M B S) (List ℕ)
  unfolding collect forget_missing_blob
  stored_bytes namespace digest missing none = do
    modify (forget_missing_blob c namespace digest)
    fail missing
  stored_bytes namespace digest missing (some blob) = lift (map_err internal (collect blob.stream))

  unfoldable pub fetch : Text → Digest → ApiError → Handler (AppState M B S) (List ℕ)
  unfolding blob_visible stored_bytes
  fetch namespace digest missing = do
    visible ← on_metadata (blob_visible c.store namespace digest)
    require visible missing
    found ← on_blobs (c.objects.get digest)
    stored_bytes namespace digest missing found

  unfoldable pub read_canonical_object :
      Serde → Text → Digest → Text → Handler (AppState M B S) Value
  unfolding validate_digest fetch is_object
  read_canonical_object serde namespace digest label = do
    lift (validate_digest c.protocol digest)
    require (leb digest.size max_object_bytes) (unprocessable (label ++ text " is too large"))
    bytes ← fetch namespace digest (unprocessable (label ++ text " blob is missing"))
    value ←
        lift
          (ok_or (serde.value_from_slice bytes) (unprocessable (label ++ text " is invalid JSON")))
    require (is_object value) (unprocessable (label ++ text " is not canonical JSON"))
    again ← lift (map_err internal (serde.value_to_vec value))
    require (again == bytes) (unprocessable (label ++ text " is not canonical JSON"))
    pure value
