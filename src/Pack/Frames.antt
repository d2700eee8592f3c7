-- ===== src/Pack/Frames.antt =====
-- The frames of a pack that the service serves (the stream of `pack_blobs` in src/server.rs), and
-- the turns in which the reader of src/pack.rs reads one.
use mr_boxington_cache.Prelude.{
  ℕ, suc, ◌+◌, ◌%◌, ◌≤◌, ◌<◌, ◌≡◌, refl, ◌∙◌, List, [], ◌∷◌, ◌++◌, length, length-append,
  take-append, drop-append, Result, ok, ◌>>=◌, arith, All, ltb, true, false, le→not-ltb,
  not-nat_beq,
}
use mr_boxington_cache.Prelude.Equality.{nat_eq, list_eq}
use mr_boxington_cache.Protocol.{Protocol, IsProtocol, Digest, u64_mod}
use mr_boxington_cache.Pack.{
  PackEvent, started, payload, complete, PackReader, in_header, in_payload, halt, next, fill, turn,
  turn_in, push_loop, header_turn, start_frame, begin_frame, parse_header,
}
use mr_boxington_cache.Pack.Bytewise.{fill_takes}
use mr_boxington_cache.Pack.Reading.{turn-at}
use mr_boxington_cache.Pack.Reading.Frames.{framed, frame_empty, frame_begun}
use mr_boxington_cache.Pack.Reading.Payload.{paid, pays}
use mr_boxington_cache.Pack.Header.{Header, header_bytes_of, length-header, parse-header}
use mr_boxington_cache.Server.Errors.{ApiError}
use mr_boxington_cache.Server.Digests.{pack_blob_header}

abbrev pub Blobs : Type 0
Blobs = List (Digest × List ℕ)

-- The frames of a served pack, and the pack.
unfoldable pub frames : Protocol → Blobs → Result ApiError (List ℕ)
frames p [] = ok []
frames p ((d, content) ∷ blobs) = do
  header ← pack_blob_header p d
  rest ← frames p blobs
  ok (header ++ (content ++ rest))

unfoldable pub pack_body : Protocol → Blobs → Result ApiError (List ℕ)
pack_body p blobs = do rest ← frames p blobs; ok (p.magic ++ rest)

-- The events of a pack that is read whole.
abbrev pub blob_events : Digest → List ℕ → List PackEvent
blob_events d [] = started d ∷ complete ∷ []
blob_events d (b ∷ bs) = started d ∷ payload (b ∷ bs) ∷ complete ∷ []

abbrev pub all_events : Blobs → List PackEvent
all_events [] = []
all_events ((d, content) ∷ blobs) = blob_events d content ++ all_events blobs

abbrev pub total_bytes : Blobs → ℕ
total_bytes [] = 0
total_bytes ((d, content) ∷ blobs) = length content + total_bytes blobs

-- A blob that a pack may carry to a reader with this ceiling.
abbrev pub IsBlob : Protocol → ℕ → Digest × List ℕ → Type 0
IsBlob p ceiling (d, content) =
    (p.valid_digest d ≡ true) × (d.size ≡ length content) × (d.size ≤ ceiling) × (d.size < u64_mod)

-- The reader between two frames.
pub record AtHeader (r : PackReader) : Type 0 where
  pub state : r.state ≡ in_header
  pub buffer : r.buffer ≡ []

-- The reader behind the frames of `blobs`.
abbrev pub behind : PackReader → Blobs → PackReader
behind r [] = r
behind r ((d, content) ∷ blobs) =
    behind
      (record r {
        state = in_header;
        buffer = [];
        blobs = r.blobs + 1;
        payload_bytes = r.payload_bytes + length content;
        remaining = 0;
      })
      blobs

-- A fill that takes exactly what is wanted.
pub fill_whole :
    (r : PackReader) (xs rest : List ℕ) (w : ℕ)
    → r.buffer ≡ []
    → length xs ≡ w
    → 0 < w
    → fill r (xs ++ rest) w ≡ (true, record r { buffer = xs }, rest)
fill_whole r xs rest w e size pos =
    let none_held : length r.buffer ≡ 0 = rw e refl in
    fill_takes r (xs ++ rest) w w (omega arith) (omega (arith, length-append xs rest))
    ∙ ground (arith, take-append w xs rest size, drop-append w xs rest size)

pub loop_next :
    (p : Protocol) (fuel : ℕ) (r r' : PackReader) (rest rest' : List ℕ)
    (events more : List PackEvent)
    → turn p r rest ≡ next r' rest' more
    → push_loop p (suc fuel) r rest events ≡ push_loop p fuel r' rest' (events ++ more)
unfolding push_loop
loop_next p fuel r r' rest rest' events more e = rw (e, push_loop)

pub loop_halt :
    (p : Protocol) (fuel : ℕ) (r r' : PackReader) (rest : List ℕ) (events : List PackEvent)
    → turn p r rest ≡ halt r'
    → push_loop p (suc fuel) r rest events ≡ ok (r', events)
unfolding push_loop
loop_halt p fuel r r' rest events e = rw (e, push_loop)

-- What a reader needs to be given these blobs.
pub record Fits (p : Protocol) (r : PackReader) (blobs : Blobs) : Type 0 where
  pub all_blobs : All (IsBlob p r.max_blob_bytes) blobs
  pub count : r.blobs + length blobs ≤ r.max_blobs
  pub count_room : r.max_blobs < u64_mod
  pub bytes : r.payload_bytes + total_bytes blobs ≤ r.max_payload_bytes
  pub bytes_room : r.max_payload_bytes < u64_mod

module _ (p : Protocol) (laws : IsProtocol p) (d : Digest) (h : Header p d) where
  header_turns :
      (r : PackReader) (rest : List ℕ)
      → AtHeader r
      → turn p r (header_bytes_of p laws d h ++ rest)
        ≡ start_frame
            (record r { buffer = header_bytes_of p laws d h })
            rest
            (parse_header p (record r { buffer = header_bytes_of p laws d h }))
  header_turns r rest at =
      let hdr = header_bytes_of p laws d h in
      turn-at p r in_header (hdr ++ rest) at.state
      ∙ (unfold turn_in header_turn in
          rw (
            fill_whole r hdr rest p.header_bytes at.buffer (length-header p laws d h)
              (omega (arith, laws.frame_header))))

  -- The turn that reads the header of a blob.
  header_read :
      (r : PackReader) (content rest : List ℕ) (blobs : Blobs)
      → AtHeader r
      → Fits p r ((d, content) ∷ blobs)
      → turn p r (header_bytes_of p laws d h ++ rest)
        ≡ begin_frame (record r { buffer = header_bytes_of p laws d h }) rest d
  unfolding start_frame
  header_read r content rest blobs at fits =
      let (valid, size, within, small) = fits.all_blobs.0 in
      header_turns r rest at ∙ rw (parse-header p laws d h r small within)

-- The reader behind one blob.
abbrev pub behind_one : PackReader → List ℕ → PackReader
behind_one r content = record r {
  state = in_header;
  buffer = [];
  blobs = r.blobs + 1;
  payload_bytes = r.payload_bytes + length content;
  remaining = 0;
}

pub Fits-behind :
    (p : Protocol) (r : PackReader) (d : Digest) (content : List ℕ) (blobs : Blobs)
    → Fits p r ((d, content) ∷ blobs)
    → Fits p (behind_one r content) blobs
Fits-behind p r d content blobs fits = record {
  all_blobs = fits.all_blobs.1;
  count = omega (arith, fits.count);
  count_room = fits.count_room;
  bytes = omega (arith, fits.bytes);
  bytes_room = fits.bytes_room;
}

module _ (p : Protocol) (laws : IsProtocol p) (d : Digest) (h : Header p d) (r : PackReader)
    (at : AtHeader r) where
  abbrev hdr : List ℕ
  hdr = header_bytes_of p laws d h

  counted :
      (blobs : Blobs) (content : List ℕ)
      → Fits p r ((d, content) ∷ blobs)
      → (ltb r.max_blobs ((r.blobs + 1) % u64_mod) ≡ false)
        × ((r.blobs + 1) % u64_mod ≡ r.blobs + 1)
  counted blobs content fits =
      let exact : (r.blobs + 1) % u64_mod ≡ r.blobs + 1 =
        omega (arith, fits.count, fits.count_room) in
      (rw exact (le→not-ltb r.max_blobs (r.blobs + 1) (omega (arith, fits.count))), exact)

  pub empty_read :
      (rest : List ℕ) (blobs : Blobs)
      → Fits p r ((d, []) ∷ blobs)
      → turn p r (hdr ++ rest) ≡ next (behind_one r []) rest (started d ∷ complete ∷ [])
  empty_read rest blobs fits =
      let (within, exact) = counted blobs [] fits in
      let (valid, size, w, small) = fits.all_blobs.0 in
      header_read p laws d h r [] rest blobs at fits
      ∙ frame_empty (record r { buffer = hdr }) rest d within (rw size refl)
      ∙ ground (arith, exact, size)

  pub payload_read :
      (c : ℕ) (cs rest : List ℕ) (blobs : Blobs)
      → Fits p r ((d, c ∷ cs) ∷ blobs)
      → turn p (framed (record r { buffer = hdr }) d in_payload) (c ∷ (cs ++ rest))
        ≡ next (behind_one r (c ∷ cs)) rest (payload (c ∷ cs) ∷ complete ∷ [])
  unfolding paid
  payload_read c cs rest blobs fits =
      let (within, exact) = counted blobs (c ∷ cs) fits in
      let (valid, size, w, small) = fits.all_blobs.0 in
      let n = suc (length cs) in
      pays p (framed (record r { buffer = hdr }) d in_payload) c (cs ++ rest) n refl
        (omega (arith, size, length-append cs rest)) (omega (arith, fits.bytes, fits.bytes_room))
      ∙ ground (
        arith,
        size,
        exact,
        fits.bytes,
        take-append (length cs) cs rest refl,
        drop-append (length cs) cs rest refl,
      )

  pub begun_read :
      (c : ℕ) (cs rest : List ℕ) (blobs : Blobs)
      → Fits p r ((d, c ∷ cs) ∷ blobs)
      → turn p r (hdr ++ (c ∷ (cs ++ rest)))
        ≡ next (framed (record r { buffer = hdr }) d in_payload) (c ∷ (cs ++ rest)) (started d ∷ [])
  begun_read c cs rest blobs fits =
      let (within, exact) = counted blobs (c ∷ cs) fits in
      let (valid, size, w, small) = fits.all_blobs.0 in
      header_read p laws d h r (c ∷ cs) (c ∷ (cs ++ rest)) blobs at fits
      ∙ frame_begun (record r { buffer = hdr }) (c ∷ (cs ++ rest)) d within
          (not-nat_beq d.size 0 (omega (arith, size)))
