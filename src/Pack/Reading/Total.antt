-- ===== src/Pack/Reading/Total.antt =====
-- The reading of a byte in every state of the pack reader (src/pack.rs).
use mr_boxington_cache.Prelude.{ℕ, suc, ◌+◌, ◌<◌, ◌≡◌, refl, List, length, arith, inl, inr}
use mr_boxington_cache.Prelude.Equality.{nat_eq, list_eq}
use mr_boxington_cache.Protocol.{Protocol, IsProtocol, u64_mod}
use mr_boxington_cache.Pack.{State, in_magic, in_header, in_payload, PackReader}
use mr_boxington_cache.Pack.Bytewise.{Progress, IsReady}
use mr_boxington_cache.Pack.Reading.{Reading, lt_or_eq, in_magic_absorbs, in_header_absorbs}
use mr_boxington_cache.Pack.Reading.Frames.{in_magic_completes, in_header_completes}
use mr_boxington_cache.Pack.Reading.Payload.{in_payload_reads}

-- Every byte that a ready reader is given is read in one of the four ways.
pub reading :
    (p : Protocol)
    → IsProtocol p
    → (r : PackReader) (b : ℕ) (bs : List ℕ) → IsReady p r
    → r.max_payload_bytes + suc (length bs) < u64_mod
    → Reading p r b bs
reading p laws r b bs ready fits = go r.state refl ready.progress
  where
    go : (st : State) → r.state ≡ st → Progress p st r → Reading p r b bs
    go in_magic e h = elim (lt_or_eq _ _ h) [
      | inl more ↦ in_magic_absorbs p r b ready bs e more
      | inr last ↦ in_magic_completes p laws r b ready bs e last
    ]
    go in_header e h = elim (lt_or_eq _ _ h) [
      | inl more ↦ in_header_absorbs p r b ready bs e more
      | inr last ↦ in_header_completes p laws r b ready bs e last
    ]
    go in_payload e h = in_payload_reads p laws r b ready e h (omega arith) bs fits
