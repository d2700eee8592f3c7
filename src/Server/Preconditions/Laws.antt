-- ===== src/Server/Preconditions/Laws.antt =====
-- The entity tag that the service sends (src/server.rs) is one that it takes back.
use mr_boxington_cache.Prelude.{◌≡◌, true, false, some, ok}
use mathlib.Core.List.{reverse-append, reverse-reverse}
use mr_boxington_cache.Prelude.Bytes.{Text, text}
use mr_boxington_cache.Auth.{Headers}
use mr_boxington_cache.Server.Preconditions.{
  none_matches, is_etag, strong_etag, if_match, manifest_precondition, quoted_etag,
}

strong_etag-quoted_etag :
    (etag : Text) → is_etag etag ≡ true → strong_etag (quoted_etag etag) ≡ some etag
unfolding strong_etag quoted_etag
strong_etag-quoted_etag etag is =
    rw (strong_etag, reverse-append etag (text "\""), reverse-reverse etag, is)

-- A client that sends back the quoted entity tag of a manifest asks to replace just that
-- manifest: the precondition is read as the tag itself.
pub manifest_precondition-quoted_etag :
    (headers : Headers) (etag : Text)
    → is_etag etag ≡ true
    → none_matches headers ≡ false
    → headers (text "if-match") ≡ some (quoted_etag etag)
    → manifest_precondition headers ≡ ok (some etag)
unfolding manifest_precondition if_match
manifest_precondition-quoted_etag headers etag is absent sent =
    rw (absent, sent, strong_etag-quoted_etag etag is)
