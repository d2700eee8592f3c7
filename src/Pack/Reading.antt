-- ===== src/Pack/Reading.antt =====
-- The four ways in which a turn of `push` (src/pack.rs) reads the first byte of a chunk.
pub mod Frames
pub mod Payload
pub mod Total
use mr_boxington_cache.Prelude.{
  ℕ, zero, suc, ◌+◌, ◌-◌, ◌%◌, ◌≤◌, ◌<◌, ◌≡◌, ◌≢◌, refl, sym, subst, ap, ◌∙◌, ◌⊎◌, min, Bool, true,
  false, List, [], ◌∷◌, ◌++◌, append_assoc, append-nil, length, length-append, take, drop, is_empty,
  ltb, lt→ltb, ltb→lt, not-ltb→le, nat_beq, nat_beq-false, nat_beq_iff, if◌then◌else◌, Result, ok,
  err, ◌>>=◌, arith, Bool-cases, inl, inr, length-drop, length-take,
}
use mr_boxington_cache.Prelude.Equality.{◌==◌, nat_eq, list_eq}
use mr_boxington_cache.Protocol.{Protocol, IsProtocol, Digest, u64_mod}
use mr_boxington_cache.Pack.{
  PackEvent, started, payload, complete, PackError, too_many_blobs, too_many_bytes, Stop, refused,
  State, in_magic, in_header, in_payload, PackReader, fill, Turn, halt, fail, next, magic_turn,
  header_turn, payload_turn, turn_in, turn, start_frame, begin_frame, parse_header,
}
use mr_boxington_cache.Pack.Bytewise.{
  Progress, IsReady, buffered, fill_partial, fill_full, settle, byte, turn-nil,
}

-- A payload event with one more byte in front.
unfoldable pub stretch_events : ℕ → List PackEvent → List PackEvent
stretch_events b (payload bytes ∷ events) = payload (b ∷ bytes) ∷ events
stretch_events b events = events

unfoldable pub stretch : ℕ → Turn → Turn
unfolding stretch_events
stretch b (next r rest events) = next r rest (stretch_events b events)
stretch b t = t

-- A turn that fails, or whose first event is a payload.
abbrev pub IsPaid : Turn → Type 0
IsPaid (fail e) = Unit
IsPaid (next r rest (payload bytes ∷ events)) = Unit
IsPaid t = ⊥

pub data Reading (p : Protocol) (r : PackReader) (b : ℕ) (bs : List ℕ) : Type 0 where
  -- Both refuse it.
  fails : (e : PackError) → turn p r (b ∷ bs) ≡ fail e → byte p r b ≡ err e → Reading p r b bs
  -- The turn ends behind the byte.
  advances :
      (r' : PackReader) (events : List PackEvent)
      → turn p r (b ∷ bs) ≡ next r' bs events
      → byte p r b ≡ ok (r', events)
      → IsReady p r'
      → r'.max_payload_bytes ≡ r.max_payload_bytes
      → Reading p r b bs
  -- The byte joins the buffer, and the turn goes on.
  absorbs :
      (r' : PackReader)
      → turn p r (b ∷ bs) ≡ turn p r' bs
      → byte p r b ≡ ok (r', [])
      → IsReady p r'
      → r'.max_payload_bytes ≡ r.max_payload_bytes
      → Reading p r b bs
  -- The byte is the first of a longer payload event.
  stretches :
      (r' : PackReader)
      → IsPaid (turn p r' bs)
      → turn p r (b ∷ bs) ≡ stretch b (turn p r' bs)
      → byte p r b ≡ ok (r', payload (b ∷ []) ∷ [])
      → IsReady p r'
      → r'.max_payload_bytes ≡ r.max_payload_bytes
      → Reading p r b bs

pub turn-at :
    (p : Protocol) (r : PackReader) (st : State) (rest : List ℕ)
    → r.state ≡ st
    → turn p r rest ≡ turn_in p st r rest
unfolding turn
turn-at p r st rest e = ap (λ s. turn_in p s r rest) e

pub lt_or_eq : (a w : ℕ) → a < w → (a + 1 < w) ⊎ (a + 1 ≡ w)
lt_or_eq a w h = grind arith

is_empty-snoc : (xs : List ℕ) (b : ℕ) → is_empty (xs ++ (b ∷ [])) ≡ false
is_empty-snoc [] b = refl
is_empty-snoc (x ∷ xs) b = refl

magic_partial :
    (p : Protocol) (r : PackReader) (b : ℕ) (bs : List ℕ)
    → length r.buffer + 1 < length p.magic
    → turn_in p in_magic r (b ∷ bs) ≡ turn_in p in_magic (buffered r b) bs
unfolding turn_in magic_turn
magic_partial p r b bs h = rw (fill_partial r b bs _ h)

header_partial :
    (p : Protocol) (r : PackReader) (b : ℕ) (bs : List ℕ)
    → length r.buffer + 1 < p.header_bytes
    → turn_in p in_header r (b ∷ bs) ≡ turn_in p in_header (buffered r b) bs
unfolding turn_in header_turn
header_partial p r b bs h = ground (arith, fill_partial r b bs _ h, is_empty-snoc r.buffer b)

module _ (p : Protocol) (r : PackReader) (b : ℕ) (ready : IsReady p r) where
  buffered-IsReady :
      (st : State) → r.state ≡ st → Progress p st (buffered r b) → IsReady p (buffered r b)
  buffered-IsReady st e h = record {
    progress = subst (λ s. Progress p s (buffered r b)) (sym e) h;
    bytes_within = ready.bytes_within;
    blobs_within = ready.blobs_within;
  }

  absorbed :
      (bs : List ℕ)
      → ((cs : List ℕ) → turn p r (b ∷ cs) ≡ turn p (buffered r b) cs)
      → IsReady p (buffered r b)
      → Reading p r b bs
  unfolding byte settle
  absorbed bs same ready' =
      absorbs (buffered r b) (same bs) (rw (same [], turn-nil p (buffered r b) ready')) ready' refl

  pub in_magic_absorbs :
      (bs : List ℕ) → r.state ≡ in_magic → length r.buffer + 1 < length p.magic → Reading p r b bs
  in_magic_absorbs bs e h =
      absorbed bs
        (λ cs.
          turn-at p r in_magic (b ∷ cs) e
          ∙ magic_partial p r b cs h
          ∙ sym (turn-at p (buffered r b) in_magic cs e))
        (buffered-IsReady in_magic e (omega (arith, length-append r.buffer (b ∷ []))))

  pub in_header_absorbs :
      (bs : List ℕ) → r.state ≡ in_header → length r.buffer + 1 < p.header_bytes → Reading p r b bs
  in_header_absorbs bs e h =
      absorbed bs
        (λ cs.
          turn-at p r in_header (b ∷ cs) e
          ∙ header_partial p r b cs h
          ∙ sym (turn-at p (buffered r b) in_header cs e))
        (buffered-IsReady in_header e (omega (arith, length-append r.buffer (b ∷ []))))

  -- A turn that ends behind the byte, whatever follows.
  pub advanced :
      (bs : List ℕ) (r' : PackReader) (events : List PackEvent)
      → ((cs : List ℕ) → turn p r (b ∷ cs) ≡ next r' cs events)
      → IsReady p r'
      → r'.max_payload_bytes ≡ r.max_payload_bytes
      → Reading p r b bs
  unfolding byte settle
  advanced bs r' events same ready' e = advances r' events (same bs) (rw (same [])) ready' e

  pub failed :
      (bs : List ℕ) (e : PackError)
      → ((cs : List ℕ) → turn p r (b ∷ cs) ≡ fail e)
      → Reading p r b bs
  unfolding byte settle
  failed bs e same = fails e (same bs) (rw (same []))

pub magic_complete :
    (p : Protocol) (r : PackReader) (b : ℕ) (bs : List ℕ)
    → length r.buffer + 1 ≡ length p.magic
    → turn_in p in_magic r (b ∷ bs) ≡ (
        if r.buffer ++ (b ∷ []) == p.magic
        then next (record r { buffer = []; state = in_header }) bs []
        else fail PackError.magic)
unfolding turn_in magic_turn
magic_complete p r b bs h = rw (fill_full r b bs _ h)

pub header_complete :
    (p : Protocol) (r : PackReader) (b : ℕ) (bs : List ℕ)
    → length r.buffer + 1 ≡ p.header_bytes
    → turn_in p in_header r (b ∷ bs) ≡ start_frame (buffered r b) bs (parse_header p (buffered r b))
unfolding turn_in header_turn
header_complete p r b bs h = rw (fill_full r b bs _ h)
