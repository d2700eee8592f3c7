-- ===== src/Server/Digests.antt =====
-- Digests in requests, and the frame header of a served pack: `parse_digest`,
-- `parse_action_digest`, `validate_action_digest`, `validate_digest` and `pack_blob_header` of
-- src/server.rs, and `pack_error`.
use mr_boxington_cache.Prelude.{
  ℕ, zero, suc, ◌/◌, ◌%◌, List, [], ◌∷◌, ◌++◌, length, nat_beq, if◌then◌else◌, Result, ok, err,
  ◌>>=◌, ◌>>◌, ensure, ◌≡◌, ap, ok_inj, err_not_ok,
}
use mr_boxington_cache.Prelude.Equality.{◌==◌, nat_eq, list_eq}
use mr_boxington_cache.Prelude.Bytes.{Text, text}
use mr_boxington_cache.Protocol.{Protocol, Digest, Algorithm, blake3, sha256}
use mr_boxington_cache.Pack.{PackError}
use mr_boxington_cache.Server.Errors.{ApiError, bad_request, too_large, decimal}

-- `map_err`
abbrev pub map_err {ℓ κ μ} :
    {E : Type ℓ} {F : Type κ} {A : Type μ} → (E → F) → Result E A → Result F A
map_err f (ok a) = ok a
map_err f (err e) = err (f e)

pub map_err-eq-ok {ℓ κ μ} :
    {E : Type ℓ} {F : Type κ} {A : Type μ} (f : E → F) (r : Result E A) (a : A)
    → map_err f r ≡ ok a
    → r ≡ ok a
map_err-eq-ok f (ok b) a e = ap (λ x. ok x) (ok_inj e)
map_err-eq-ok f (err x) a e = absurd (err_not_ok e)

-- `u64::to_be_bytes`: the lowest `n` bytes, the highest of them first.
unfoldable pub to_be_bytes : ℕ → ℕ → List ℕ
to_be_bytes zero v = []
to_be_bytes (suc n) v = to_be_bytes n (v / 256) ++ (v % 256 ∷ [])

abbrev pub tag_of : Algorithm → ℕ
tag_of blake3 = 1
tag_of sha256 = 2

unfoldable pub validate_digest : Protocol → Digest → Result ApiError (Unit {0})
validate_digest p d = if p.valid_digest d then ok tt else err (bad_request (text "invalid digest"))

unfoldable pub parse_digest : Protocol → Text → Text → ℕ → Result ApiError Digest
unfolding validate_digest
parse_digest p algorithm hash size = do
  let d : Digest = record { algorithm = algorithm; hash = hash; size = size }
  validate_digest p d
  ok d

unfoldable pub require_blake3 : Digest → Result ApiError Digest
require_blake3 d =
    if d.algorithm == text "blake3"
    then ok d
    else err (bad_request (text "action result keys must use blake3"))

unfoldable pub parse_action_digest : Protocol → Text → Text → ℕ → Result ApiError Digest
unfolding parse_digest require_blake3
parse_action_digest p algorithm hash size = do
  d ← parse_digest p algorithm hash size
  require_blake3 d

-- A digest that a request body names, rather than one from a path.
unfoldable pub validate_action_digest : Protocol → Digest → Result ApiError Digest
unfolding validate_digest require_blake3
validate_action_digest p d = do validate_digest p d; require_blake3 d

-- The tag, the 32 bytes of the hash and the size of one blob.
unfoldable pub pack_blob_header : Protocol → Digest → Result ApiError (List ℕ)
unfolding to_be_bytes
pack_blob_header p d = do
  hash ← map_err bad_request (p.hex_decode d.hash)
  ensure (nat_beq (length hash) 32) (bad_request (text "invalid digest hash length"))
  kind ← map_err bad_request (p.algorithm_kind d.algorithm)
  ok ((tag_of kind ∷ []) ++ (hash ++ to_be_bytes 8 d.size))

-- The text of a `PackError`.
unfoldable pub pack_message : PackError → Text
unfolding decimal
pack_message PackError.magic = text "blob pack does not start with the expected magic prefix"
pack_message (PackError.algorithm tag) =
    text "blob pack declares an unknown digest algorithm " ++ decimal tag
pack_message PackError.truncated = text "blob pack ended inside a frame"
pack_message (PackError.blob_too_large size limit) =
    text "blob pack declares a blob of "
    ++ (decimal size ++ (text " bytes, over the " ++ (decimal limit ++ text " byte limit")))
pack_message (PackError.too_many_blobs n) =
    text "blob pack carries more than the declared " ++ (decimal n ++ text " blobs")
pack_message (PackError.too_many_bytes n) =
    text "blob pack carries more than the declared " ++ (decimal n ++ text " payload bytes")

-- A malformed pack is the client's error; an oversized one says which limit.
unfoldable pub pack_error : PackError → ApiError
unfolding pack_message
pack_error (PackError.blob_too_large size limit) =
    too_large (pack_message (PackError.blob_too_large size limit))
pack_error (PackError.too_many_bytes n) = too_large (pack_message (PackError.too_many_bytes n))
pack_error (PackError.too_many_blobs n) = too_large (pack_message (PackError.too_many_blobs n))
pack_error e = bad_request (pack_message e)
