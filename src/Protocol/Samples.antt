-- ===== src/Protocol/Samples.antt =====
-- A concrete protocol for the witnesses and the tests: constants like the documented ones, and
-- hexadecimal text by the digits of each byte.
use mr_boxington_cache.Prelude.{
  ℕ, ◌+◌, ◌-◌, ◌*◌, ◌/◌, ◌%◌, ◌≡◌, refl, Bool, true, false, ◌&&◌, List, [], ◌∷◌, Result, ok, err,
  arith, length, ltb, nat_beq, nat_beq_iff, if◌then◌else◌, Bool-cases, and_parts, inl, inr,
}
use mr_boxington_cache.Prelude.Equality.{◌==◌, nat_eq, list_eq, eq_iff}
use mr_boxington_cache.Prelude.Bytes.{Text, text, is_digit}
use mr_boxington_cache.Protocol.{
  Protocol, IsProtocol, Digest, Algorithm, blake3, sha256, is_hex_digit,
}

abbrev digit : ℕ → ℕ
digit n = if ltb n 10 then b'0' + n else 87 + n

abbrev value : ℕ → ℕ
value b = if is_digit b then b - b'0' else b - 87

abbrev pub encode : List ℕ → Text
encode [] = []
encode (b ∷ bs) = digit (b / 16) ∷ digit (b % 16) ∷ encode bs

abbrev more : ℕ → ℕ → Result Text (List ℕ) → Result Text (List ℕ)
more a b (err e) = err e
more a b (ok bs) =
    if is_hex_digit a && is_hex_digit b
    then ok ((value a * 16 + value b) ∷ bs)
    else err (text "invalid character")

abbrev pub decode : Text → Result Text (List ℕ)
decode [] = ok []
decode (a ∷ []) = err (text "odd number of digits")
decode (a ∷ b ∷ rest) = more a b (decode rest)

abbrev name : Algorithm → Text
name blake3 = text "blake3"
name sha256 = text "sha256"

abbrev kind : Text → Result Text Algorithm
kind t =
    if t == text "blake3"
    then ok blake3
    else if t == text "sha256"
    then ok sha256
    else err (text "unsupported digest algorithm")

abbrev is_hash : Text → Result Text (List ℕ) → Bool
is_hash t (err e) = false
is_hash t (ok h) = nat_beq (length h) 32 && encode h == t

abbrev valid_by : Text → Result Text Algorithm → Bool
valid_by t (err e) = false
valid_by t (ok a) = is_hash t (decode t)

abbrev valid : Digest → Bool
valid d = valid_by d.hash (kind d.algorithm)

abbrev pub sample : Protocol
sample = record {
  magic = text "MBXPACK1";
  header_bytes = 41;
  max_batch_items = 10000;
  algorithm_name = name;
  algorithm_kind = kind;
  valid_digest = valid;
  hex_encode = encode;
  hex_decode = decode;
}

name_of : (t : Text) (a : Algorithm) → kind t ≡ ok a → t ≡ name a
name_of t blake3 e = elim (Bool-cases (t == text "blake3")) [
  | inl is ↦ (eq_iff t (text "blake3")).0 is
  | inr other ↦ elim (Bool-cases (t == text "sha256")) [
    | inl is ↦ absurd (cc (rw (other, is) at e))
    | inr neither ↦ absurd (cc (rw (other, neither) at e))
  ]
]
name_of t sha256 e = elim (Bool-cases (t == text "blake3")) [
  | inl is ↦ absurd (cc (rw is at e))
  | inr other ↦ elim (Bool-cases (t == text "sha256")) [
    | inl is ↦ (eq_iff t (text "sha256")).0 is
    | inr neither ↦ absurd (cc (rw (other, neither) at e))
  ]
]

kind_of : (a : Algorithm) → kind (name a) ≡ ok a
kind_of blake3 = refl
kind_of sha256 = refl

hashed :
    (t : Text) (r : Result Text (List ℕ))
    → decode t ≡ r
    → is_hash t r ≡ true
    → (h : List ℕ) × (decode t ≡ ok h) × (length h ≡ 32) × (encode h ≡ t)
hashed t (err x) e h = absurd cc
hashed t (ok bytes) e h =
    let (size, same) = and_parts _ _ h in
    (bytes, e, (nat_beq_iff (length bytes) 32).0 size, (eq_iff (encode bytes) t).0 same)

valid_parts :
    (t : Text) (r : Result Text Algorithm)
    → valid_by t r ≡ true
    → ((a : Algorithm) × (r ≡ ok a)) × (is_hash t (decode t) ≡ true)
valid_parts t (err x) h = absurd cc
valid_parts t (ok a) h = ((a, refl), h)

pub sample-IsProtocol : IsProtocol sample
sample-IsProtocol = record {
  magic_some = omega arith;
  frame_header = refl;
  kind_of_name = kind_of;
  name_of_kind = name_of;
  valid_kind = λ d h. (valid_parts d.hash (kind d.algorithm) h).0;
  valid_hash =
      λ d h. hashed d.hash (decode d.hash) refl (valid_parts d.hash (kind d.algorithm) h).1;
}
