-- ===== src/Tests/Server/Frames.antt =====
-- A frame of two pieces, checked and stored (src/server.rs).
use mr_boxington_cache.Prelude.{ℕ, ◌+◌, ◌%◌, ◌≡◌, refl, List, [], ◌∷◌, ok, length}
use mr_boxington_cache.Prelude.Bytes.{text}
use mr_boxington_cache.Protocol.{blake3, u64_mod}
use mr_boxington_cache.Metadata.{PutOutcome}
use mr_boxington_cache.Metadata.Memory.{MemoryMetadata, register_blob}
use mr_boxington_cache.Server.Service.{AppState}
use mr_boxington_cache.Server.Frames.{PackFrame, new, verify, store}
use mr_boxington_cache.Server.Frames.Stored.{write_all, store_declared}
use mr_boxington_cache.Pack.Chunks.{concat}
use mr_boxington_cache.Tests.Server.Samples.{config, state, digest, Objects}
use mr_boxington_cache.Tests.Server.Records.{with_state}

abbrev payloads : List (List ℕ)
payloads = text "a" ∷ text "bc" ∷ []

abbrev begun : PackFrame
begun = record {
  digest = digest;
  file = [];
  size = 0;
  hashers = record { fed_blake3 = []; fed_sha256 = [] };
}

abbrev frame : PackFrame
frame = record {
  digest = digest;
  file = text "abc";
  size = 3;
  hashers = record { fed_blake3 = text "abc"; fed_sha256 = [] };
}

made : new config digest ≡ ok begun
unfolding new
made = refl

written : write_all config blake3 digest begun payloads ≡ ok frame
unfolding write_all
written = refl

good : verify config frame ≡ ok tt
unfolding verify
good = refl

stored : (store config (text "team") frame state).0 ≡ ok PutOutcome.created
unfolding store register_blob
stored = refl

abbrev after : AppState MemoryMetadata Objects ℕ
after = (store config (text "team") frame state).1

store_declared_example :
    (length (concat payloads) % u64_mod ≡ digest.size)
    × (config.protocol.hex_encode (config.hash blake3 (concat payloads)) ≡ digest.hash)
    × ((config.objects.put digest (concat payloads) state.blobs).0 ≡ ok PutOutcome.created)
    × ((config.store.register_blob (text "team") digest PutOutcome.created state.metadata).0
        ≡ ok tt)
    × (after ≡ record state {
      blobs = (config.objects.put digest (concat payloads) state.blobs).1;
      metadata =
          (config.store.register_blob (text "team") digest PutOutcome.created state.metadata).1;
      blob_uploads = state.blob_uploads + 1;
    })
store_declared_example =
    store_declared config (text "team") digest blake3 payloads begun frame state after
      PutOutcome.created refl made written good
      (with_state (store config (text "team") frame state) PutOutcome.created stored)
