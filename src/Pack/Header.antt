-- ===== src/Pack/Header.antt =====
-- The frame header that the service writes (`pack_blob_header` in src/server.rs) is the one that the
-- reader of src/pack.rs parses.
use mr_boxington_cache.Prelude.{
  ℕ, zero, suc, ◌+◌, ◌*◌, ◌/◌, ◌%◌, ◌^◌, ◌≤◌, ◌<◌, ◌≡◌, refl, ◌∙◌, List, [], ◌∷◌, ◌++◌, length,
  length-append, take-append, drop-append, take_all, ok, arith, true, le→not-ltb,
}
use mr_boxington_cache.Protocol.{Protocol, IsProtocol, Digest, Algorithm, blake3, sha256, u64_mod}
use mr_boxington_cache.Pack.{PackReader, from_be_bytes, parse_header, algorithm_of_tag}
use mr_boxington_cache.Server.Digests.{to_be_bytes, pack_blob_header, tag_of}

pub length-to_be_bytes : (n v : ℕ) → length (to_be_bytes n v) ≡ n
unfolding to_be_bytes
length-to_be_bytes zero v = refl
length-to_be_bytes (suc n) v =
    omega (
      arith,
      length-append (to_be_bytes n (v / 256)) (v % 256 ∷ []),
      length-to_be_bytes n (v / 256),
    )

from_be_bytes-snoc :
    (xs : List ℕ) (acc b : ℕ) → from_be_bytes acc (xs ++ (b ∷ [])) ≡ from_be_bytes acc xs * 256 + b
from_be_bytes-snoc [] acc b = refl
from_be_bytes-snoc (x ∷ xs) acc b = from_be_bytes-snoc xs (acc * 256 + x) b

pub from_be_bytes-to_be_bytes : (n v : ℕ) → v < 256 ^ n → from_be_bytes 0 (to_be_bytes n v) ≡ v
unfolding to_be_bytes
from_be_bytes-to_be_bytes zero v h = omega arith
from_be_bytes-to_be_bytes (suc n) v h =
    from_be_bytes-snoc (to_be_bytes n (v / 256)) 0 (v % 256)
    ∙ rw (from_be_bytes-to_be_bytes n (v / 256) (omega arith)) (omega arith)

-- The parts of a valid digest's header.
pub record Header (p : Protocol) (d : Digest) : Type 0 where
  pub kind : Algorithm
  pub hash : List ℕ
  pub kind_lem : p.algorithm_kind d.algorithm ≡ ok kind
  pub hash_lem : p.hex_decode d.hash ≡ ok hash
  pub size_lem : length hash ≡ 32
  pub text_lem : p.hex_encode hash ≡ d.hash

pub Header-of : (p : Protocol) → IsProtocol p → (d : Digest) → p.valid_digest d ≡ true → Header p d
Header-of p laws d v =
    let (kind, k) = laws.valid_kind d v in
    let (hash, h, size, t) = laws.valid_hash d v in
    record { kind = kind; hash = hash; kind_lem = k; hash_lem = h; size_lem = size; text_lem = t }

algorithm_of_tag-tag_of : (a : Algorithm) → algorithm_of_tag (tag_of a) ≡ ok a
unfolding algorithm_of_tag
algorithm_of_tag-tag_of blake3 = refl
algorithm_of_tag-tag_of sha256 = refl

module _ (p : Protocol) (laws : IsProtocol p) (d : Digest) (h : Header p d) where
  abbrev pub header_bytes_of : List ℕ
  header_bytes_of = tag_of h.kind ∷ (h.hash ++ to_be_bytes 8 d.size)

  pub header-shape : pack_blob_header p d ≡ ok header_bytes_of
  unfolding pack_blob_header
  header-shape = rw (h.hash_lem, h.kind_lem, h.size_lem)

  pub length-header : length header_bytes_of ≡ p.header_bytes
  length-header = omega (
    arith,
    length-append h.hash (to_be_bytes 8 d.size),
    length-to_be_bytes 8 d.size,
    h.size_lem,
    laws.frame_header,
  )

  pub parse-header :
      (r : PackReader)
      → d.size < u64_mod
      → d.size ≤ r.max_blob_bytes
      → parse_header p (record r { buffer = header_bytes_of }) ≡ ok d
  unfolding parse_header
  parse-header r fits within =
      let back : List ℕ = to_be_bytes 8 d.size in
      rw (
        algorithm_of_tag-tag_of h.kind,
        laws.frame_header,
        drop-append 32 h.hash back h.size_lem,
        take_all 8 back (length-to_be_bytes 8 d.size),
        take-append 32 h.hash back h.size_lem,
        from_be_bytes-to_be_bytes 8 d.size fits,
        h.text_lem,
        le→not-ltb r.max_blob_bytes d.size within,
        ← laws.name_of_kind d.algorithm h.kind h.kind_lem,
      )
