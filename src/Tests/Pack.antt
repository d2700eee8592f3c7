-- ===== src/Tests/Pack.antt =====
-- The reader of packs (src/pack.rs) on a small pack that arrives in three chunks.
use mr_boxington_cache.Prelude.{
  ℕ, ◌≡◌, ◌⊎◌, refl, sym, List, [], ◌∷◌, ◌++◌, append_assoc, length, ok, err, arith,
}
use mr_boxington_cache.Prelude.Bytes.{text}
use mr_boxington_cache.Protocol.{Digest}
use mr_boxington_cache.Protocol.Samples.{sample, sample-IsProtocol}
use mr_boxington_cache.Pack.{PackEvent, payload, PackError, refused, PackReader, new, push, finish}
use mr_boxington_cache.Pack.Bytewise.{IsReady}
use mr_boxington_cache.Pack.Chunks.{concat, feed, feed_all}
use mr_boxington_cache.Pack.Invariance.{feed_all-concat, push_total}
use mr_boxington_cache.Pack.Frames.{Blobs, pack_body, all_events, total_bytes}
use mr_boxington_cache.Pack.RoundTrip.{push-pack_body}

-- A caller that keeps the contents.
abbrev contents : PackEvent → List ℕ → List ℕ
contents (payload bytes) kept = kept ++ bytes
contents _ kept = kept

contents-split :
    (xs ys kept : List ℕ)
    → contents (payload (xs ++ ys)) kept ≡ contents (payload ys) (contents (payload xs) kept)
contents-split xs ys kept = sym (append_assoc kept xs ys)

abbrev eight : List ℕ → List ℕ
eight rest = 7 ∷ 7 ∷ 7 ∷ 7 ∷ 7 ∷ 7 ∷ 7 ∷ 7 ∷ rest

-- A frame header of a blob of 3 bytes.
abbrev header : List ℕ
header = 1 ∷ eight (eight (eight (eight (0 ∷ 0 ∷ 0 ∷ 0 ∷ 0 ∷ 0 ∷ 0 ∷ 3 ∷ []))))

abbrev chunks : List (List ℕ)
chunks = text "MBXP" ∷ (text "ACK1" ++ (header ++ text "a")) ∷ text "bc" ∷ []

abbrev reader : PackReader
reader = new 1000 10 1000

reader-IsReady : IsReady sample reader
reader-IsReady = record {
  progress = omega arith;
  bytes_within = omega arith;
  blobs_within = omega arith;
}

feed_all-concat_example :
    feed_all contents sample reader chunks [] ≡ feed contents sample reader (concat chunks) []
feed_all-concat_example =
    feed_all-concat contents contents-split sample sample-IsProtocol chunks reader [] reader-IsReady
      (omega arith)

push_total_example :
    ((x : PackReader × List PackEvent) × (push sample reader (concat chunks) ≡ ok x)
      × IsReady sample x.0)
    ⊎ ((e : PackError) × (push sample reader (concat chunks) ≡ err (refused e)))
push_total_example =
    push_total sample sample-IsProtocol reader (concat chunks) reader-IsReady (omega arith)

abbrev digest : Digest
digest = record {
  algorithm = text "blake3";
  hash = text "0707070707070707070707070707070707070707070707070707070707070707";
  size = 3;
}

abbrev blobs : Blobs
blobs = (digest, text "abc") ∷ []

push-pack_body_example :
    (body : List ℕ) × (pack_body sample blobs ≡ ok body)
    × (r : PackReader) × (push sample (new 1000 10 1000) body ≡ ok (r, all_events blobs))
    × (finish r ≡ ok tt)
    × (r.blobs ≡ length blobs)
    × (r.payload_bytes ≡ total_bytes blobs)
push-pack_body_example =
    push-pack_body sample sample-IsProtocol blobs 1000 10 1000
      ((refl, refl, omega arith, omega arith), tt) (omega arith, omega arith)
      (omega arith, omega arith)
