-- ===== src/Pack/Bytewise.antt =====
-- The loop of `push` (src/pack.rs) one byte at a time: what a turn does with a longer chunk is
-- what it does with the first byte, and then with the rest.
use mr_boxington_cache.Prelude.{
  ℕ, suc, ◌+◌, ◌-◌, ◌≤◌, ◌<◌, ◌≡◌, refl, sym, ◌∙◌, min, true, false, List, [], ◌∷◌, ◌++◌,
  append_assoc, append-nil, length, length-append, take, drop, lt→ltb, nat_beq, Result, ok, err,
  arith, length-take,
}
use mr_boxington_cache.Protocol.{Protocol}
use mr_boxington_cache.Pack.{
  PackEvent, PackError, State, in_magic, in_header, in_payload, PackReader, fill, Turn, halt, fail,
  next, magic_turn, header_turn, payload_turn, turn_in, turn,
}

-- How far a reader may be in each state.
abbrev pub Progress : Protocol → State → PackReader → Type 0
Progress p in_magic r = length r.buffer < length p.magic
Progress p in_header r = length r.buffer < p.header_bytes
Progress p in_payload r = (0 < r.remaining) × (length r.buffer < p.header_bytes)

-- The reader between two chunks: it waits for a byte, and its counters are within the limits.
pub record IsReady (p : Protocol) (r : PackReader) : Type 0 where
  pub progress : Progress p r.state r
  pub bytes_within : r.payload_bytes ≤ r.max_payload_bytes
  pub blobs_within : r.blobs ≤ r.max_blobs

-- The reader with one more byte in its buffer.
abbrev pub buffered : PackReader → ℕ → PackReader
buffered r b = record r { buffer = r.buffer ++ (b ∷ []) }

-- `fill` when it takes `n` bytes.
pub fill_takes :
    (r : PackReader) (rest : List ℕ) (w n : ℕ)
    → length r.buffer < w
    → n ≡ min (w - length r.buffer) (length rest)
    → fill r rest w ≡ (
      nat_beq (length r.buffer + n) w,
      record r { buffer = r.buffer ++ take n rest },
      drop n rest,
    )
unfolding fill
fill_takes r rest w n h e = rw (lt→ltb _ _ h, ← e, length-append r.buffer (take n rest), size)
  where
    size : length (take n rest) ≡ n
    size = omega (arith, length-take n rest)

pub fill_partial :
    (r : PackReader) (b : ℕ) (bs : List ℕ) (w : ℕ)
    → length r.buffer + 1 < w
    → fill r (b ∷ bs) w ≡ fill (buffered r b) bs w
fill_partial r b bs w h =
    let n = min (w - (length r.buffer + 1)) (length bs) in
    fill_takes r (b ∷ bs) w (suc n) (omega arith) (omega arith)
    ∙ ground (arith, append_assoc r.buffer (b ∷ []) (take n bs), length-append r.buffer (b ∷ []))
    ∙ sym (
        fill_takes (buffered r b) bs w n (omega (arith, length-append r.buffer (b ∷ [])))
          (omega (arith, length-append r.buffer (b ∷ []))))

pub fill_full :
    (r : PackReader) (b : ℕ) (bs : List ℕ) (w : ℕ)
    → length r.buffer + 1 ≡ w
    → fill r (b ∷ bs) w ≡ (true, buffered r b, bs)
fill_full r b bs w h = fill_takes r (b ∷ bs) w 1 (omega arith) (omega arith) ∙ ground arith

pub fill-nil : (r : PackReader) (w : ℕ) → length r.buffer < w → fill r [] w ≡ (false, r, [])
fill-nil r w h = fill_takes r [] w 0 h (omega arith) ∙ ground (arith, append-nil r.buffer)

-- What a turn does with one byte alone: the reader that waits for the next, and the events.
unfoldable pub settle : Turn → Result PackError (PackReader × List PackEvent)
settle (halt r) = ok (r, [])
settle (fail e) = err e
settle (next r rest events) = ok (r, events)

unfoldable pub byte : Protocol → PackReader → ℕ → Result PackError (PackReader × List PackEvent)
byte p r b = settle (turn p r (b ∷ []))

-- A ready reader waits when there is nothing to read.
turn_in-nil :
    (p : Protocol) (st : State) (r : PackReader) → Progress p st r → turn_in p st r [] ≡ halt r
unfolding turn_in magic_turn header_turn payload_turn
turn_in-nil p in_magic r h = rw (fill-nil r _ h)
turn_in-nil p in_header r h = ground (arith, fill-nil r p.header_bytes h)
turn_in-nil p in_payload r h = refl

pub turn-nil : (p : Protocol) (r : PackReader) → IsReady p r → turn p r [] ≡ halt r
unfolding turn
turn-nil p r h = turn_in-nil p r.state r h.progress
