-- ===== src/Server/Blobs.antt =====
-- Single blobs over HTTP: `put_blob`, `get_blob` and `forget_missing_blob` of src/server.rs.
pub mod Receiving
pub mod Upload
pub mod Download
pub mod Lost
use mr_boxington_cache.Prelude.{
  ℕ, ◌+◌, Bool, true, false, not, ◌&&◌, ◌||◌, List, [], ◌∷◌, ◌++◌, Option, none, some, Result, ok,
  err, ◌>>=◌, ◌>>◌, ensure, ltb, leb, nat_beq, length, if◌then◌else◌,
}
use mr_boxington_cache.Prelude.Bytes.{Text, text}
use mr_boxington_cache.Prelude.Equality.{◌==◌, nat_eq, list_eq}
use mr_boxington_cache.Protocol.{Digest, Algorithm, blake3, sha256, u64_mod}
use mr_boxington_cache.Metadata.{PutOutcome, blob_visible}
use mr_boxington_cache.Auth.{Headers, Access, read, write, authorize}
use mr_boxington_cache.Server.Errors.{ApiError, Fault, bad_request, not_found, too_large, internal}
use mr_boxington_cache.Server.Digests.{map_err, parse_digest}
use mr_boxington_cache.Server.Preconditions.{require_immutable_precondition}
use mr_boxington_cache.Server.Spool
use mr_boxington_cache.Server.Pending.{record_access}
use mr_boxington_cache.Server.Service.{AppState, Blob, BlobStore, Config, Disk}

-- The chunks of a request's body, one of which may be a transport error.
abbrev pub Body : Type 0
Body = List (Result Text (List ℕ))

-- What each hasher has been fed.
pub record Hashers : Type 0 where
  pub fed_blake3 : List ℕ
  pub fed_sha256 : List ℕ

unfoldable pub update : Algorithm → List ℕ → Hashers → Hashers
update blake3 chunk h = record h { fed_blake3 = h.fed_blake3 ++ chunk }
update sha256 chunk h = record h { fed_sha256 = h.fed_sha256 ++ chunk }

unfoldable pub fed : Algorithm → Hashers → List ℕ
fed blake3 h = h.fed_blake3
fed sha256 h = h.fed_sha256

-- The size so far, the hashers, and the spool file.
pub record Received : Type 0 where
  pub size : ℕ
  pub hashers : Hashers
  pub file : List ℕ

abbrev pub nothing_received : Received
nothing_received = record {
  size = 0;
  hashers = record { fed_blake3 = []; fed_sha256 = [] };
  file = [];
}

module _ {M B S : Type 0} (c : Config M B S) where
  -- One turn of the loop over the body's chunks.
  unfoldable pub receive_chunk : Digest → Received → List ℕ → Result ApiError Received
  unfolding update
  receive_chunk digest r chunk = do
    ensure (ltb (r.size + length chunk) u64_mod) (too_large (text "blob is too large"))
    ensure (leb (r.size + length chunk) digest.size && leb (r.size + length chunk) c.max_blob_bytes)
        (too_large (text "blob exceeds declared or configured size"))
    kind ← map_err bad_request (c.protocol.algorithm_kind digest.algorithm)
    map_err internal (c.disk.write r.file chunk)
    ok (record {
      size = r.size + length chunk;
      hashers = update kind chunk r.hashers;
      file = r.file ++ chunk;
    })

  unfoldable pub receive : Digest → Body → Received → Result ApiError Received
  unfolding receive_chunk
  receive digest [] r = ok r
  receive digest (err e ∷ body) r = err (bad_request e)
  receive digest (ok chunk ∷ body) r = receive_chunk digest r chunk >>= receive digest body

  -- The spool file of a body that is what its digest says.
  unfoldable pub verified : Digest → Body → Result ApiError (List ℕ)
  unfolding receive fed
  verified digest body = do
    map_err internal c.disk.create
    r ← receive digest body nothing_received
    map_err internal (c.disk.flush r.file)
    kind ← map_err bad_request (c.protocol.algorithm_kind digest.algorithm)
    ensure
        (nat_beq r.size digest.size
          && c.protocol.hex_encode (c.hash kind (fed kind r.hashers)) == digest.hash)
        (bad_request (text "content does not match the requested digest"))
    ok r.file

  -- What a request must show before its body is read.
  unfoldable pub admitted : Headers → Text → Text → ℕ → Result ApiError (Text × Digest)
  unfolding authorize require_immutable_precondition parse_digest
  admitted headers algorithm hash size = do
    namespace ← authorize c.tokens c.auth headers write
    require_immutable_precondition headers
    digest ← parse_digest c.protocol algorithm hash size
    ensure (leb digest.size c.max_blob_bytes) (too_large (text "blob exceeds configured limit"))
    ok (namespace, digest)

  unfoldable pub put_status : PutOutcome → ℕ
  put_status PutOutcome.created = 201
  put_status PutOutcome.already_exists = 204

  -- Storage, then the row that makes the blob visible.
  unfoldable pub store_blob :
      Text → Digest → List ℕ → AppState M B S → Result ApiError ℕ × AppState M B S
  unfolding put_status
  store_blob namespace digest file s =
      let (stored, blobs) = c.objects.put digest file s.blobs in
      elim stored [
        | err e ↦ (err (internal e), record s { blobs = blobs })
        | ok outcome ↦
            let (registered, metadata) =
              c.store.register_blob namespace digest outcome s.metadata in
            elim registered [
              | err e ↦ (err (internal e), record s { blobs = blobs; metadata = metadata })
              | ok _ ↦ (
                ok (put_status outcome),
                record s { blobs = blobs; metadata = metadata; blob_uploads = s.blob_uploads + 1 },
              )
            ]
      ]

  unfoldable pub upload : Text → Digest → Body → AppState M B S → Result ApiError ℕ × AppState M B S
  unfolding verified store_blob
  upload namespace digest body s = elim (verified digest body) [
    | err e ↦ (err e, s)
    | ok file ↦ store_blob namespace digest file s
  ]

  -- The room for the blob is held until the handler returns.
  unfoldable pub put_blob :
      Headers → Text → Text → ℕ → Body → AppState M B S → Result ApiError ℕ × AppState M B S
  unfolding admitted upload Spool.reserve Spool.drop
  put_blob headers algorithm hash size body s = elim (admitted headers algorithm hash size) [
    | err e ↦ (err e, s)
    | ok (namespace, digest) ↦
        let (room, spool) = Spool.reserve c.semaphores digest.size s.spool in
        elim room [
          | err e ↦ (err e, record s { spool = spool })
          | ok permit ↦
              let (answer, s') = upload namespace digest body (record s { spool = spool }) in
              (answer, record s' { spool = Spool.drop c.semaphores permit s'.spool })
        ]
  ]

  -- A failure to forget is logged only.
  unfoldable pub forget_missing_blob : Text → Digest → AppState M B S → AppState M B S
  forget_missing_blob namespace digest s = record s {
    metadata = (c.store.forget_blob namespace digest s.metadata).1;
  }

  -- The blob's stream, where storage still holds it.
  unfoldable pub serve : Text → Digest → AppState M B S → Result ApiError Blob × AppState M B S
  unfolding record_access forget_missing_blob
  serve namespace digest s =
      let s1 : AppState M B S = record s {
        access = record_access namespace (digest ∷ []) s.access;
      } in
      let (found, blobs) = c.objects.get digest s1.blobs in
      elim found [
        | err e ↦ (err (internal e), record s1 { blobs = blobs })
        | ok none ↦ (
          err (not_found (text "blob not found")),
          forget_missing_blob namespace digest (record s1 { blobs = blobs }),
        )
        | ok (some blob) ↦ (ok blob, record s1 { blobs = blobs; blob_hits = s.blob_hits + 1 })
      ]

  serve_visible : Text → Digest → AppState M B S → Result ApiError Blob × AppState M B S
  unfolding blob_visible serve
  serve_visible namespace digest s =
      let (visible, metadata) = blob_visible c.store namespace digest s.metadata in
      elim visible [
        | err e ↦ (err (internal e), record s { metadata = metadata })
        | ok seen ↦
            if seen
            then serve namespace digest (record s { metadata = metadata })
            else (err (not_found (text "blob not found")), record s { metadata = metadata })
      ]

  unfoldable pub requested : Headers → Text → Text → ℕ → Result ApiError (Text × Digest)
  unfolding authorize parse_digest
  requested headers algorithm hash size = do
    namespace ← authorize c.tokens c.auth headers read
    digest ← parse_digest c.protocol algorithm hash size
    ok (namespace, digest)

  unfoldable pub get_blob :
      Headers → Text → Text → ℕ → AppState M B S → Result ApiError Blob × AppState M B S
  unfolding requested serve_visible
  get_blob headers algorithm hash size s = elim (requested headers algorithm hash size) [
    | err e ↦ (err e, s)
    | ok (namespace, digest) ↦ serve_visible namespace digest s
  ]
