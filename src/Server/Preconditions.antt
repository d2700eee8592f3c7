-- ===== src/Server/Preconditions.antt =====
-- The conditional headers of writes: `require_immutable_precondition`, `manifest_precondition` and
-- `quoted_etag` of src/server.rs.
pub mod Laws
use mr_boxington_cache.Prelude.{
  ℕ, Bool, true, false, ◌&&◌, ◌||◌, List, [], ◌∷◌, ◌++◌, Option, none, some, Result, ok, err, ◌>>=◌,
  ok_or, all, leb, length, nat_beq, if◌then◌else◌,
}
use mr_boxington_cache.Prelude.Bytes.{Text, text, is_digit, strip_prefix, strip_suffix}
use mr_boxington_cache.Prelude.Equality.{◌==◌, nat_eq, list_eq}
use mr_boxington_cache.Auth.{Headers}
use mr_boxington_cache.Server.Errors.{ApiError, bad_request, precondition, precondition_required}

-- `get(IF_NONE_MATCH) == Some("*")`
unfoldable pub none_matches : Headers → Bool
none_matches headers = elim (headers (text "if-none-match")) [
  | none ↦ false
  | some value ↦ value == text "*"
]

unfoldable pub require_immutable_precondition : Headers → Result ApiError (Unit {0})
unfolding none_matches
require_immutable_precondition headers =
    if none_matches headers then ok tt else err (precondition (text "If-None-Match: * is required"))

unfoldable pub is_hex_byte : ℕ → Bool
is_hex_byte b = is_digit b || (leb b'a' b && leb b b'f')

unfoldable pub is_etag : Text → Bool
unfolding is_hex_byte
is_etag value = nat_beq (length value) 64 && all is_hex_byte value

-- The text between the quotes, if it is the hexadecimal text of a hash.
unfoldable pub strong_etag : Text → Option Text
unfolding is_etag
strong_etag value = elim (strip_prefix (text "\"") value) [
  | none ↦ none
  | some rest ↦ elim (strip_suffix (text "\"") rest) [
    | none ↦ none
    | some etag ↦ if is_etag etag then some etag else none
  ]
]

if_match : Headers → Result ApiError (Option Text)
unfolding strong_etag
if_match headers = do
  value ←
      ok_or (headers (text "if-match"))
        (precondition_required (text "If-None-Match: * or If-Match is required"))
  etag ←
      ok_or (strong_etag value) (bad_request (text "If-Match must contain one strong BLAKE3 ETag"))
  ok (some etag)

unfoldable pub manifest_precondition : Headers → Result ApiError (Option Text)
unfolding none_matches if_match
manifest_precondition headers = if none_matches headers then ok none else if_match headers

unfoldable pub quoted_etag : Text → Text
quoted_etag etag = text "\"" ++ (etag ++ text "\"")
