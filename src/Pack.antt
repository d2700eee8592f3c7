-- ===== src/Pack.antt =====
-- The incremental reader of an uploaded pack: the state machine of src/pack.rs.
-- A slice is a list of bytes. `u64` additions are written with their wrap-around. A reader that
-- has failed is dropped by every caller, so a failing `push` returns the error alone.
pub mod Bytewise
pub mod Reading
pub mod Chunks
pub mod Invariance
pub mod Header
pub mod Frames
pub mod RoundTrip
use mr_boxington_cache.Prelude.{
  ℕ, zero, suc, ◌+◌, ◌-◌, ◌*◌, ◌%◌, min, Bool, true, false, ◌&&◌, List, [], ◌∷◌, ◌++◌, Option, none,
  some, length, take, drop, get_or, is_empty, ltb, if◌then◌else◌, nat_beq, Result, ok, err, ◌>>=◌,
  ensure, ◌>>◌,
}
use mr_boxington_cache.Prelude.Equality.{◌==◌, nat_eq, list_eq}
use mr_boxington_cache.Protocol.{Protocol, Digest, Algorithm, blake3, sha256, u64_mod}

-- What a caller does with the bytes of a chunk.
pub data PackEvent : Type 0 where
  started : Digest → PackEvent
  payload : List ℕ → PackEvent
  complete : PackEvent

pub data PackError : Type 0 where
  magic : PackError
  algorithm : ℕ → PackError
  truncated : PackError
  blob_too_large : ℕ → ℕ → PackError
  too_many_blobs : ℕ → PackError
  too_many_bytes : ℕ → PackError

-- Why `push` gives no events. `out_of_fuel` is no value of the source: the loop of the model
-- made more turns than its fuel.
pub data Stop : Type 0 where
  refused : PackError → Stop
  out_of_fuel : Stop

pub data State : Type 0 where
  in_magic in_header in_payload : State

pub record PackReader : Type 0 where
  pub state : State
  pub buffer : List ℕ
  pub max_blob_bytes : ℕ
  pub max_blobs : ℕ
  pub max_payload_bytes : ℕ
  pub blobs : ℕ
  pub payload_bytes : ℕ
  pub remaining : ℕ

-- A reader bounded by one blob's ceiling and the request's declaration.
abbrev pub new : ℕ → ℕ → ℕ → PackReader
new blob_bytes blobs payload_bytes = record {
  state = in_magic;
  buffer = [];
  max_blob_bytes = blob_bytes;
  max_blobs = blobs;
  max_payload_bytes = payload_bytes;
  blobs = 0;
  payload_bytes = 0;
  remaining = 0;
}

-- Buffer until `wanted` bytes are held: whether they are, the reader, and what is left.
unfoldable pub fill : PackReader → List ℕ → ℕ → Bool × PackReader × List ℕ
fill r rest wanted =
    if ltb (length r.buffer) wanted
    then (let n = min (wanted - length r.buffer) (length rest) in
        let buffer = r.buffer ++ take n rest in
        (nat_beq (length buffer) wanted, record r { buffer = buffer }, drop n rest))
    else (nat_beq (length r.buffer) wanted, r, rest)

-- `u64::from_be_bytes`
abbrev pub from_be_bytes : ℕ → List ℕ → ℕ
from_be_bytes acc [] = acc
from_be_bytes acc (b ∷ bs) = from_be_bytes (acc * 256 + b) bs

unfoldable pub algorithm_of_tag : ℕ → Result PackError Algorithm
algorithm_of_tag tag =
    if nat_beq tag 1 then ok blake3 else if nat_beq tag 2 then ok sha256 else err (algorithm tag)

checked_digest : Protocol → PackReader → Algorithm → List ℕ → ℕ → Result PackError Digest
checked_digest p r kind hash size =
    if ltb r.max_blob_bytes size
    then err (blob_too_large size r.max_blob_bytes)
    else ok (record { algorithm = p.algorithm_name kind; hash = hash; size = size })

-- Decode the complete frame header held in the buffer.
unfoldable pub parse_header : Protocol → PackReader → Result PackError Digest
unfolding checked_digest
parse_header p r = do
  kind ← algorithm_of_tag (get_or r.buffer 0 0)
  let hash = p.hex_encode (take 32 (drop 1 r.buffer))
  let size = from_be_bytes 0 (take (p.header_bytes - 33) (drop 33 r.buffer))
  checked_digest p r kind hash size

-- One turn of the loop in `push`: it returns, or it goes on with what is left of the chunk and
-- the events that the turn has pushed.
pub data Turn : Type 0 where
  halt : PackReader → Turn
  fail : PackError → Turn
  next : PackReader → List ℕ → List PackEvent → Turn

unfoldable pub magic_turn : Protocol → PackReader → List ℕ → Turn
magic_turn p r rest =
    let (full, r', rest') = fill r rest (length p.magic) in
    if full
    then (if r'.buffer == p.magic
        then next (record r' { buffer = []; state = in_header }) rest' []
        else fail magic)
    else halt r'

-- A frame has begun, as its counter says; a frame of no bytes is complete at once.
unfoldable pub begin_frame : PackReader → List ℕ → Digest → Turn
begin_frame r rest d =
    let blobs' = (r.blobs + 1) % u64_mod in
    if ltb r.max_blobs blobs'
    then fail (too_many_blobs r.max_blobs)
    else (if nat_beq d.size 0
        then next (record r { buffer = []; remaining = d.size; blobs = blobs'; state = in_header })
            rest (started d ∷ complete ∷ [])
        else next (record r { buffer = []; remaining = d.size; blobs = blobs'; state = in_payload })
            rest (started d ∷ []))

unfoldable pub start_frame : PackReader → List ℕ → Result PackError Digest → Turn
start_frame r rest (err e) = fail e
start_frame r rest (ok d) = begin_frame r rest d

unfoldable pub header_turn : Protocol → PackReader → List ℕ → Turn
header_turn p r rest =
    if is_empty rest && is_empty r.buffer
    then halt r
    else (let (full, r', rest') = fill r rest p.header_bytes in
        if full then start_frame r' rest' (parse_header p r') else halt r')

unfoldable pub payload_turn : PackReader → List ℕ → Turn
payload_turn r rest =
    if is_empty rest
    then halt r
    else (let n = min r.remaining (length rest) in
        let remaining' = r.remaining - n in
        let bytes = (r.payload_bytes + n) % u64_mod in
        if ltb r.max_payload_bytes bytes
        then fail (too_many_bytes r.max_payload_bytes)
        else (if nat_beq remaining' 0
            then next
                (record r { remaining = remaining'; payload_bytes = bytes; state = in_header })
                (drop n rest) (payload (take n rest) ∷ complete ∷ [])
            else next (record r { remaining = remaining'; payload_bytes = bytes }) (drop n rest)
                (payload (take n rest) ∷ [])))

unfoldable pub turn_in : Protocol → State → PackReader → List ℕ → Turn
turn_in p in_magic r rest = magic_turn p r rest
turn_in p in_header r rest = header_turn p r rest
turn_in p in_payload r rest = payload_turn r rest

unfoldable pub turn : Protocol → PackReader → List ℕ → Turn
unfolding turn_in
turn p r rest = turn_in p r.state r rest

unfoldable pub push_loop :
    Protocol → ℕ → PackReader → List ℕ → List PackEvent → Result Stop (PackReader × List PackEvent)
push_loop p zero r rest events = err out_of_fuel
push_loop p (suc fuel) r rest events = elim (turn p r rest) [
  | halt r' ↦ ok (r', events)
  | fail e ↦ err (refused e)
  | next r' rest' new_events ↦ push_loop p fuel r' rest' (events ++ new_events)
]

-- Consume one chunk of the request body. Each turn but the last takes a byte.
unfoldable pub push : Protocol → PackReader → List ℕ → Result Stop (PackReader × List PackEvent)
push p r chunk = push_loop p (suc (length chunk)) r chunk []

-- The pack ended on a frame boundary.
unfoldable pub finish : PackReader → Result Stop (Unit {0})
finish r = elim r.state [
  | in_header ↦ if is_empty r.buffer then ok tt else err (refused truncated)
  | _ ↦ err (refused truncated)
]
