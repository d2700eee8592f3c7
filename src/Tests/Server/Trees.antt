-- ===== src/Tests/Server/Trees.antt =====
-- A walk over a tree of two directories (src/server.rs).
use mr_boxington_cache.Prelude.{ℕ, ◌+◌, ◌≡◌, refl, List, ok}
use mr_boxington_cache.Prelude.Bytes.{text}
use mr_boxington_cache.Protocol.{Digest}
use mr_boxington_cache.Metadata.Memory.{visible_blobs}
use mr_boxington_cache.Prelude.Maps
use mr_boxington_cache.Server.Lookups.Missing.{in_memory}
use mr_boxington_cache.Server.Tree.{visit, validate_tree}
use mr_boxington_cache.Server.Tree.Total.{Answered, validate_tree-total}
use mr_boxington_cache.Server.Tree.Order.{Proper, validate_tree-Ordered}
use mr_boxington_cache.Tests.Metadata.{json}
use mr_boxington_cache.Tests.Server.Samples.{config}
use mr_boxington_cache.Tests.Server.Records.{serde, top, stored, config-IsReadOnly, with_state}

accepted : (validate_tree (in_memory json config) serde (text "team") 6 top stored).0 ≡ ok tt
unfolding validate_tree visible_blobs Maps.lookup visit
accepted = refl

validate_tree-total_example :
    (fuel : ℕ) × Answered
      (validate_tree (in_memory json config) serde (text "team") fuel top stored).0
    × ((more : ℕ)
        → validate_tree (in_memory json config) serde (text "team") (fuel + more) top stored
          ≡ validate_tree (in_memory json config) serde (text "team") fuel top stored)
validate_tree-total_example =
    validate_tree-total (in_memory json config) serde (text "team") top stored

validate_tree-Ordered_example :
    (stored ≡ (validate_tree (in_memory json config) serde (text "team") 6 top stored).1)
    × ((seen : List Digest) × Proper (in_memory json config) serde (text "team") stored top seen)
validate_tree-Ordered_example =
    validate_tree-Ordered (in_memory json config) serde (text "team") 6 top stored
      (validate_tree (in_memory json config) serde (text "team") 6 top stored).1 config-IsReadOnly
      (with_state (validate_tree (in_memory json config) serde (text "team") 6 top stored) tt
        accepted)
