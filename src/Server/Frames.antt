-- ===== src/Server/Frames.antt =====
-- One frame of an uploaded pack: `PackFrame` and `BlobPackReceipt` of src/server.rs.
pub mod Stored
use mr_boxington_cache.Prelude.{
  ℕ, ◌+◌, ◌%◌, Bool, true, false, ◌&&◌, List, [], ◌∷◌, ◌++◌, Option, Result, ok, err, ◌>>=◌, ◌>>◌,
  ensure, length, nat_beq, if◌then◌else◌,
}
use mr_boxington_cache.Prelude.Bytes.{Text, text}
use mr_boxington_cache.Prelude.Equality.{◌==◌, nat_eq, list_eq}
use mr_boxington_cache.Protocol.{Digest, Algorithm, u64_mod}
use mr_boxington_cache.Metadata.{PutOutcome}
use mr_boxington_cache.Server.Errors.{ApiError, Fault, bad_request, internal}
use mr_boxington_cache.Server.Digests.{map_err}
use mr_boxington_cache.Server.Service.{AppState, Config}
use mr_boxington_cache.Server.Blobs.{Hashers, update, fed}
use mr_boxington_cache.Server.Handler as Steps
use mr_boxington_cache.Server.Handler.{Handler, on_metadata, on_blobs}

pub record BlobPackReceipt : Type 0 where
  pub created : ℕ
  pub existing : ℕ

-- `file` is what the spool file holds; the permit that is held with it is the request's.
pub record PackFrame : Type 0 where
  pub digest : Digest
  pub file : List ℕ
  pub size : ℕ
  pub hashers : Hashers

-- What the task that stored a frame has ended with: the outer error is that of `join`. The counters
-- of the receipt are 64 bits wide.
unfoldable pub count :
    BlobPackReceipt → Result Fault (Result ApiError PutOutcome) → Result ApiError BlobPackReceipt
count receipt (err e) = err (internal e)
count receipt (ok (err e)) = err e
count receipt (ok (ok PutOutcome.created)) =
    ok (record receipt { created = (receipt.created + 1) % u64_mod })
count receipt (ok (ok PutOutcome.already_exists)) =
    ok (record receipt { existing = (receipt.existing + 1) % u64_mod })

module _ {M B S : Type 0} (c : Config M B S) where
  unfoldable pub new : Digest → Result ApiError PackFrame
  new digest = do
    map_err internal c.disk.create
    ok (record {
      digest = digest;
      file = [];
      size = 0;
      hashers = record { fed_blake3 = []; fed_sha256 = [] };
    })

  unfoldable pub write : PackFrame → List ℕ → Result ApiError PackFrame
  unfolding update
  write frame payload = do
    kind ← map_err bad_request (c.protocol.algorithm_kind frame.digest.algorithm)
    map_err internal (c.disk.write frame.file payload)
    ok (record frame {
      size = (frame.size + length payload) % u64_mod;
      hashers = update kind payload frame.hashers;
      file = frame.file ++ payload;
    })

  unfoldable pub verify : PackFrame → Result ApiError (Unit {0})
  unfolding fed
  verify frame = do
    map_err internal (c.disk.flush frame.file)
    kind ← map_err bad_request (c.protocol.algorithm_kind frame.digest.algorithm)
    ensure
        (nat_beq frame.size frame.digest.size
          && c.protocol.hex_encode (c.hash kind (fed kind frame.hashers)) == frame.digest.hash)
        (bad_request (text "packed blob does not match its declared digest"))

  unfoldable pub store : Text → PackFrame → Handler (AppState M B S) PutOutcome
  store namespace frame = Steps.◌>>=◌ (on_blobs (c.objects.put frame.digest frame.file)) λ outcome.
      Steps.◌>>◌ (on_metadata (c.store.register_blob namespace frame.digest outcome)) (
        Steps.◌>>◌ (Steps.modify (λ s. record s { blob_uploads = s.blob_uploads + 1 }))
          (Steps.pure outcome))
