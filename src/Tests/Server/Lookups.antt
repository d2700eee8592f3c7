-- ===== src/Tests/Server/Lookups.antt =====
-- A question for missing blobs (src/server.rs).
use mr_boxington_cache.Prelude.{ℕ, ◌≡◌, refl, not, ◌&&◌, [], ◌∷◌, ok}
use mr_boxington_cache.Prelude.Bytes.{Text, text}
use mr_boxington_cache.Prelude.Equality.{contains}
use mr_boxington_cache.Protocol.{Digest, digest_eq, key_eq}
use mr_boxington_cache.Metadata.Memory.{MemoryMetadata, visible_blobs}
use mr_boxington_cache.Auth.{valid_namespace}
use mr_boxington_cache.Server.Service.{AppState}
use mr_boxington_cache.Server.Lookups.{asked, missing_blobs}
use mr_boxington_cache.Server.Lookups.Missing.{in_memory, missing_blobs-contains}
use mr_boxington_cache.Tests.Server.Samples.{config, state, headers, digest, json, Objects}

abbrev other : Digest
other = record digest { size = 4 }

-- One of the two digests is registered.
abbrev holding : AppState MemoryMetadata Objects ℕ
holding = record state {
  metadata = record { entries = []; blobs = (text "team", digest) ∷ []; manifests = [] };
}

answer :
    (missing_blobs (in_memory json config) headers (digest ∷ other ∷ []) holding).0
    ≡ ok (other ∷ [])
unfolding missing_blobs visible_blobs valid_namespace
answer = refl

missing_blobs-contains_example :
    (namespace : Text) × (asked (in_memory json config) headers (digest ∷ other ∷ [])
      ≡ ok namespace)
    × ((d : Digest)
        → contains (other ∷ []) d ≡ (
            contains (digest ∷ other ∷ []) d
            && not (contains holding.metadata.blobs (namespace, d))))
missing_blobs-contains_example =
    missing_blobs-contains json config headers (digest ∷ other ∷ []) (other ∷ []) holding answer
