-- ===== src/Tests/Server/Limits.antt =====
-- The spool's budget, the pending accesses, the entries of directories and the preconditions of
-- src/server.rs on small inputs.
use mr_boxington_cache.Prelude.{
  ℕ, ◌+◌, ◌*◌, ◌≤◌, ◌<◌, ◌≡◌, ◌⊎◌, refl, true, false, List, [], ◌∷◌, Option, none, some, ok, err,
  length, All, arith, if◌then◌else◌,
}
use mr_boxington_cache.Prelude.Bytes.{Text, text}
use mr_boxington_cache.Prelude.Equality.{◌==◌, nat_eq, list_eq}
use mr_boxington_cache.Protocol.{Protocol, Digest}
use mr_boxington_cache.Auth.{Headers}
use mr_boxington_cache.Server.Errors.{unavailable, pool_timed_out}
use mr_boxington_cache.Server.Spool.{kibibytes, permits_of, u32_max, new, reserve}
use mr_boxington_cache.Server.Spool.Bounds.{
  Upload, spooled, held_permits, Reachable, start, begin, spooled-Reachable, reserve-eq-err,
}
use mr_boxington_cache.Server.Pending.{Pending, max_pending_accesses, default, flush}
use mr_boxington_cache.Server.Pending.Flush.{watching, watched, digests_for, IsBatch, flush-watched}
use mr_boxington_cache.Protocol.Samples.{sample}
use mr_boxington_cache.Metadata.{MetadataStore}
use mr_boxington_cache.Metadata.Memory.{MemoryMetadata, empty, memory_store}
use mr_boxington_cache.Server.Pending.Bounds.{count, record_all, record_all_bounds}
use mr_boxington_cache.Server.Entries.{Directory, validate_directory_entries}
use mr_boxington_cache.Server.Entries.Names.{
  AreEntries, entry_names, validate_directory_entries-AreEntries,
}
use mr_boxington_cache.Server.Preconditions.{
  is_etag, none_matches, manifest_precondition, quoted_etag,
}
use mr_boxington_cache.Server.Preconditions.Laws.{manifest_precondition-quoted_etag}
use mr_boxington_cache.Tests.Server.Samples.{counter, counter-IsSemaphore, digest, json}

abbrev uploads : List Upload
uploads = record { bytes = 3000; permit = some 3 } ∷ []

-- Three of the four permits of a spool of 4096 bytes are held.
reached : Reachable counter 4096 (some 1) uploads
unfolding new reserve
reached = begin (some 4) (some 1) [] 3000 (some 3) start refl

spooled-Reachable_example : spooled uploads ≤ 1024 * kibibytes 4096
spooled-Reachable_example =
    spooled-Reachable counter counter-IsSemaphore 4096 (some 1) uploads (omega arith) reached

full :
    reserve counter 2000 (some 1)
    ≡ (err (unavailable (text "upload spool is full, retry later")), some 1)
unfolding reserve
full = refl

reserve-eq-err_example :
    (◌≡◌ {A = Option ℕ} (some 1) (some 1))
    × ((u32_max < kibibytes 2000)
        ⊎ (permits_of 1000000 4096 < held_permits uploads + kibibytes 2000))
reserve-eq-err_example =
    reserve-eq-err counter counter-IsSemaphore 4096 (some 1) (some 1) uploads 2000
      (unavailable (text "upload spool is full, retry later")) reached full

abbrev reads : List (Text × List Digest)
reads = (text "team", digest ∷ digest ∷ []) ∷ (text "other", digest ∷ []) ∷ []

record_all_bounds_example :
    ((record_all reads default).len ≡ count (record_all reads default).namespaces)
    × ((record_all reads default).len ≤ max_pending_accesses)
    × (length (record_all reads default).namespaces ≤ max_pending_accesses)
record_all_bounds_example = record_all_bounds reads

-- Batches of one digest, to a store that fails those of one namespace.
abbrev small : Protocol
small = record sample { max_batch_items = 1 }

abbrev failing : MetadataStore MemoryMetadata
failing = record (memory_store json) {
  touch_blobs = λ n ds m. if n == text "other" then (err pool_timed_out, m) else (ok tt, m);
}

abbrev pending : Pending
pending = record {
  namespaces =
      (text "team", digest ∷ record digest { size = 4 } ∷ [])
      ∷ (text "other", digest ∷ [])
      ∷ (text "third", digest ∷ [])
      ∷ [];
  len = 4;
}

flush-watched_example :
    ((flush small (watched failing) pending (watching empty)).0 ≡ default)
    × ((n : Text)
        → digests_for n (flush small (watched failing) pending (watching empty)).1.1.calls
          ≡ digests_for n pending.namespaces)
    × All (IsBatch small) (flush small (watched failing) pending (watching empty)).1.1.calls
    × ((flush small (watched failing) pending (watching empty)).1.0
        ≡ (flush small (watched failing) pending (watching empty)).1.1.failures)
    × (flush small failing pending empty ≡ (
      default,
      (
        (flush small (watched failing) pending (watching empty)).1.0,
        (flush small (watched failing) pending (watching empty)).1.1.inner,
      ),
    ))
flush-watched_example = flush-watched small failing pending empty (omega arith)

abbrev directory : Directory
directory = record {
  version = 1;
  directories = record { name = text "src"; mode = 493; digest = digest } ∷ [];
  files = record { name = text "a"; mode = 420; digest = digest; executable = false } ∷ [];
  symlinks = record { name = text "b"; mode = 511; target = text "a" } ∷ [];
}

directory_valid : validate_directory_entries directory ≡ ok tt
unfolding validate_directory_entries
directory_valid = refl

validate_directory_entries-AreEntries_example : AreEntries [] (entry_names directory)
validate_directory_entries-AreEntries_example =
    validate_directory_entries-AreEntries directory directory_valid

abbrev etag : Text
etag = text "0707070707070707070707070707070707070707070707070707070707070707"

abbrev if_match_headers : Headers
if_match_headers name = if name == text "if-match" then some (quoted_etag etag) else none

etag_valid : is_etag etag ≡ true
unfolding is_etag
etag_valid = refl

no_none_match : none_matches if_match_headers ≡ false
unfolding none_matches
no_none_match = refl

manifest_precondition-quoted_etag_example : manifest_precondition if_match_headers ≡ ok (some etag)
manifest_precondition-quoted_etag_example =
    manifest_precondition-quoted_etag if_match_headers etag etag_valid no_none_match refl
