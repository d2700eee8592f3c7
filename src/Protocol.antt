-- ===== src/Protocol.antt =====
-- The protocol crate `mbx_cache_protocol` and the crates `hex`, as far as the service relies on
-- them: a record of constants and functions that every component takes as a parameter, and the
-- documented facts about it. The crates' code is not part of the repository.
pub mod Samples
use mr_boxington_cache.Prelude.{
  ℕ, ◌<◌, ◌≤◌, ◌*◌, ◌≡◌, ◌↔◌, Bool, true, false, ◌&&◌, ◌||◌, List, [], ◌∷◌, Result, ok, arith,
  length, leb,
}
use mr_boxington_cache.Prelude.Equality.{Eq, ◌==◌, nat_eq, list_eq, eq_iff}
use mr_boxington_cache.Prelude.Bytes.{Text, text, is_digit}

-- A digest names a blob by its algorithm, the hexadecimal text of its hash, and its size.
pub record Digest : Type 0 where
  pub algorithm : Text
  pub hash : Text
  pub size : ℕ

pub data Algorithm : Type 0 where
  blake3 sha256 : Algorithm

abbrev pub digest_beq : Digest → Digest → Bool
digest_beq a b = a.algorithm == b.algorithm && (a.hash == b.hash && a.size == b.size)

pub digest_beq_iff : (a b : Digest) → (digest_beq a b ≡ true) ↔ (a ≡ b)
digest_beq_iff a b =
    ground (arith, eq_iff a.algorithm b.algorithm, eq_iff a.hash b.hash, eq_iff a.size b.size)

instance abbrev pub digest_eq : Eq Digest
digest_eq = record { beq = digest_beq; beq_iff = digest_beq_iff }

-- Metadata is kept by namespace and digest.
abbrev pub Key : Type 0
Key = Text × Digest

abbrev pub key_beq : Key → Key → Bool
key_beq a b = a.0 == b.0 && a.1 == b.1

pub key_beq_iff : (a b : Key) → (key_beq a b ≡ true) ↔ (a ≡ b)
key_beq_iff a b = ground (arith, eq_iff a.0 b.0, eq_iff a.1 b.1)

instance abbrev pub key_eq : Eq Key
key_eq = record { beq = key_beq; beq_iff = key_beq_iff }

-- A byte, and a number that a `u64` holds.
abbrev pub IsByte : ℕ → Type 0
IsByte b = b < 256

abbrev pub u64_mod : ℕ
u64_mod = 18446744073709551616

-- One lowercase hexadecimal digit.
abbrev pub is_hex_digit : ℕ → Bool
is_hex_digit b = is_digit b || (leb b'a' b && leb b b'f')

pub record Protocol : Type 0 where
  -- BLOB_PACK_MAGIC, BLOB_PACK_HEADER_BYTES, MAX_BATCH_ITEMS
  pub magic : List ℕ
  pub header_bytes : ℕ
  pub max_batch_items : ℕ
  -- `Algorithm::into` for a digest's algorithm field
  pub algorithm_name : Algorithm → Text
  -- `Digest::algorithm_kind()`, an error as its text, and `Digest::validate().is_ok()`
  pub algorithm_kind : Text → Result Text Algorithm
  pub valid_digest : Digest → Bool
  -- `hex::encode`, and `hex::decode`, an error as its text
  pub hex_encode : List ℕ → Text
  pub hex_decode : Text → Result Text (List ℕ)

-- What the service relies on: the frame layout that src/pack.rs documents, and the encoding of
-- hashes as lowercase hexadecimal text.
pub record IsProtocol (p : Protocol) : Type 0 where
  pub magic_some : 0 < length p.magic
  pub frame_header : p.header_bytes ≡ 41
  pub kind_of_name : (a : Algorithm) → p.algorithm_kind (p.algorithm_name a) ≡ ok a
  pub name_of_kind : (t : Text) (a : Algorithm) → p.algorithm_kind t ≡ ok a → t ≡ p.algorithm_name a
  pub valid_kind :
      (d : Digest)
      → p.valid_digest d ≡ true
      → (a : Algorithm) × (p.algorithm_kind d.algorithm ≡ ok a)
  pub valid_hash :
      (d : Digest)
      → p.valid_digest d ≡ true
      → (h : List ℕ) × (p.hex_decode d.hash ≡ ok h) × (length h ≡ 32) × (p.hex_encode h ≡ d.hash)
