-- ===== src/Tests/Server/Blobs.antt =====
-- One blob uploaded, served and lost, by the handlers of src/server.rs.
use mr_boxington_cache.Prelude.{ℕ, ◌≡◌, refl, List, [], ◌∷◌, none, ok, err}
use mr_boxington_cache.Prelude.Bytes.{text}
use mr_boxington_cache.Prelude.Maps
use mr_boxington_cache.Metadata.Memory.{MemoryMetadata, register_blob, visible_blobs}
use mr_boxington_cache.Auth.{read, authorize, valid_namespace}
use mr_boxington_cache.Server.Errors.{not_found}
use mr_boxington_cache.Server.Digests.{parse_digest}
use mr_boxington_cache.Server.Service.{AppState, Blob}
use mr_boxington_cache.Server.Blobs.{Body, put_blob, get_blob}
use mr_boxington_cache.Server.Blobs.Upload.{IsStored, put_blob-IsStored}
use mr_boxington_cache.Server.Blobs.Download.{IsServed, get_blob-IsServed}
use mr_boxington_cache.Server.Blobs.Lost.{Forgotten, get_blob-missing_blobs}
use mr_boxington_cache.Server.Lookups.{asked, missing_blobs}
use mr_boxington_cache.Server.Lookups.Missing.{in_memory}
use mr_boxington_cache.Protocol.{Digest, digest_eq}
use mr_boxington_cache.Prelude.Equality.{contains}
use mr_boxington_cache.Tests.Server.Samples.{config, state, headers, hash, digest, json, Objects}

abbrev body : Body
body = ok (text "a") ∷ ok (text "bc") ∷ []

uploaded : (put_blob config headers (text "blake3") hash 3 body state).0 ≡ ok 201
unfolding put_blob valid_namespace register_blob
uploaded = refl

put_blob-IsStored_example :
    IsStored config headers digest body state
      (put_blob config headers (text "blake3") hash 3 body state).1
      201
put_blob-IsStored_example =
    put_blob-IsStored config headers (text "blake3") hash 3 body state 201 uploaded

-- A blob that is visible, and held or lost.
abbrev holding : Objects → AppState MemoryMetadata Objects ℕ
holding held = record state {
  metadata = record { entries = []; blobs = (text "team", digest) ∷ []; manifests = [] };
  blobs = held;
}

abbrev blob : Blob
blob = record { size = 3; stream = ok (text "abc") ∷ [] }

abbrev there : AppState MemoryMetadata Objects ℕ
there = holding ((digest, text "abc") ∷ [])

served : (get_blob config headers (text "blake3") hash 3 there).0 ≡ ok blob
unfolding get_blob valid_namespace visible_blobs Maps.lookup
served = refl

get_blob-IsServed_example :
    IsServed config headers
      (text "blake3")
      hash
      3
      there
      (get_blob config headers (text "blake3") hash 3 there).1
      blob
get_blob-IsServed_example =
    get_blob-IsServed config headers (text "blake3") hash 3 there blob served

may_read : authorize config.tokens config.auth headers read ≡ ok (text "team")
unfolding authorize valid_namespace
may_read = refl

named : parse_digest config.protocol (text "blake3") hash 3 ≡ ok digest
unfolding parse_digest
named = refl

lost : (config.objects.get digest (holding []).blobs).0 ≡ ok none
unfolding Maps.lookup
lost = refl

-- The upload that asks before it sends.
may_ask : asked (in_memory json config) headers (digest ∷ []) ≡ ok (text "team")
unfolding asked authorize valid_namespace
may_ask = refl

get_blob-missing_blobs_example :
    ((get_blob (in_memory json config) headers (text "blake3") hash 3 (holding [])).0
      ≡ err (not_found (text "blob not found")))
    × Forgotten
        (text "team", digest)
        (holding []).metadata
        (get_blob (in_memory json config) headers (text "blake3") hash 3 (holding [])).1.metadata
    × (missing : List Digest) × ((missing_blobs
          (in_memory json config)
          headers
          (digest ∷ [])
          (get_blob (in_memory json config) headers (text "blake3") hash 3 (holding [])).1).0
        ≡ ok missing)
    × (contains missing digest ≡ contains (digest ∷ []) digest)
get_blob-missing_blobs_example =
    get_blob-missing_blobs json config headers headers (text "blake3") hash 3 (holding [])
      (text "team") digest (digest ∷ []) may_read named lost may_ask
