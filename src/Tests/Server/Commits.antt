-- ===== src/Tests/Server/Commits.antt =====
-- A result and a manifest put and read back, by the handlers of src/server.rs.
use mr_boxington_cache.Prelude.{ℕ, ◌≡◌, refl, List, [], ◌∷◌, some, Result, ok}
use mr_boxington_cache.Prelude.Bytes.{text}
use mr_boxington_cache.Prelude.Maps
use mr_boxington_cache.Protocol.{blake3}
use mr_boxington_cache.Protocol.Samples.{sample}
use mr_boxington_cache.Metadata.Memory.{MemoryMetadata, visible_blobs, commit, commit_manifest}
use mr_boxington_cache.Metadata.Memory.Laws.{Op, forget, run}
use mr_boxington_cache.Auth.{valid_namespace, read, write, authorize}
use mr_boxington_cache.Json.{get}
use mr_boxington_cache.Model.{
  valid_string, valid_some_string, valid_strings, valid_optional_string_map,
}
use mr_boxington_cache.Model.Cc.{validate_action}
use mr_boxington_cache.Server.Tree.{visit}
use mr_boxington_cache.Server.Lookups.{get_action_result}
use mr_boxington_cache.Server.Lookups.Missing.{in_memory}
use mr_boxington_cache.Server.Errors.{ApiError}
use mr_boxington_cache.Server.Tree.{Ended}
use mr_boxington_cache.Server.Service.{AppState}
use mr_boxington_cache.Server.Preconditions.{quoted_etag}
use mr_boxington_cache.Server.Commits.{put_action_result}
use mr_boxington_cache.Server.Commits.Accepted.{IsAccepted, put_action_result-IsAccepted}
use mr_boxington_cache.Server.Commits.Publish.{put_action_result-get_action_result}
use mr_boxington_cache.Server.Manifests.{Response, get_action_manifest, put_action_manifest}
use mr_boxington_cache.Server.Manifests.Merge.{put_action_manifest-get_action_manifest}
use mr_boxington_cache.Tests.Metadata.{json, json-IsJson}
use mr_boxington_cache.Tests.Server.Samples.{config, headers, hash, Objects}
use mr_boxington_cache.Tests.Server.Records.{
  serde, leaf, stored, result, config-IsReadOnly, objects-same, with_state,
}

abbrev put : Result Ended ℕ × AppState MemoryMetadata Objects ℕ
put =
    put_action_result (in_memory json config) serde 6 headers (text "blake3") hash 12 result stored

created : put.0 ≡ ok 201
unfolding put_action_result visible_blobs commit Maps.lookup valid_namespace get validate_action
    valid_string valid_some_string valid_strings valid_optional_string_map visit
created = refl

put_action_result-IsAccepted_example :
    IsAccepted
      (in_memory json config)
      serde
      headers
      (text "blake3")
      hash
      12
      result
      stored
      6
      put.1
      201
put_action_result-IsAccepted_example =
    put_action_result-IsAccepted (in_memory json config) serde 6 headers (text "blake3") hash 12
      result stored put.1 201 config-IsReadOnly (with_state put 201 created)

same_namespace :
    authorize config.tokens config.auth headers read
    ≡ authorize config.tokens config.auth headers write
unfolding authorize
same_namespace = refl

abbrev ops : List Op
ops = forget (text "team") leaf ∷ []

abbrev later : AppState MemoryMetadata Objects ℕ
later = record stored { metadata = run json ops put.1.metadata }

put_action_result-get_action_result_example :
    (get_action_result (in_memory json config) headers (text "blake3") hash 12 later).0 ≡ ok result
put_action_result-get_action_result_example =
    put_action_result-get_action_result json config serde 6 headers headers (text "blake3") hash 12
      result stored put.1 later 201 ops json-IsJson objects-same (with_state put 201 created)
      same_namespace refl

abbrev tagged : Response
tagged = record {
  status = 201;
  etag = quoted_etag (sample.hex_encode (config.hash blake3 (text "P")));
  body = [];
}

abbrev merge : Result ApiError Response × AppState MemoryMetadata Objects ℕ
merge =
    put_action_manifest (in_memory json config) serde headers (text "blake3") hash 10
      (λ limit. some (text "P")) stored

merged : merge.0 ≡ ok tagged
unfolding put_action_manifest commit_manifest Maps.lookup valid_namespace
merged = refl

put_action_manifest-get_action_manifest_example :
    (bytes : List ℕ) × (tagged.etag ≡ quoted_etag (sample.hex_encode (config.hash blake3 bytes)))
    × ((get_action_manifest (in_memory json config) serde headers (text "blake3") hash 10 merge.1).0
        ≡ ok (record { status = 200; etag = tagged.etag; body = bytes }))
put_action_manifest-get_action_manifest_example =
    put_action_manifest-get_action_manifest json config serde headers headers (text "blake3") hash
      10 (λ limit. some (text "P")) stored merge.1 tagged (with_state merge tagged merged)
      same_namespace
