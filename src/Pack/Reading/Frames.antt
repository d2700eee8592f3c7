-- ===== src/Pack/Reading/Frames.antt =====
-- Turns of `push` (src/pack.rs) that complete the magic prefix or a frame header.
use mr_boxington_cache.Prelude.{
  ℕ, ◌+◌, ◌%◌, ◌≡◌, refl, ◌∙◌, true, false, List, [], ◌∷◌, ◌++◌, length, ltb, not-ltb→le, nat_beq,
  nat_beq-false, Result, ok, err, arith, Bool-cases, inl, inr,
}
use mr_boxington_cache.Prelude.Equality.{◌==◌, nat_eq, list_eq}
use mr_boxington_cache.Protocol.{Protocol, IsProtocol, Digest, u64_mod}
use mr_boxington_cache.Pack.{
  started, complete, PackError, too_many_blobs, State, in_magic, in_header, in_payload, PackReader,
  fail, next, turn, start_frame, begin_frame, parse_header,
}
use mr_boxington_cache.Pack.Bytewise.{Progress, IsReady, buffered}
use mr_boxington_cache.Pack.Reading.{
  Reading, turn-at, advanced, failed, magic_complete, header_complete,
}

-- The reader behind a frame header.
abbrev pub framed : PackReader → Digest → State → PackReader
framed r d st = record r {
  buffer = [];
  remaining = d.size;
  blobs = (r.blobs + 1) % u64_mod;
  state = st;
}

module _ (r : PackReader) (rest : List ℕ) (d : Digest) where
  pub frame_refused :
      ltb r.max_blobs ((r.blobs + 1) % u64_mod) ≡ true
      → begin_frame r rest d ≡ fail (too_many_blobs r.max_blobs)
  unfolding begin_frame
  frame_refused over = rw over

  pub frame_empty :
      ltb r.max_blobs ((r.blobs + 1) % u64_mod) ≡ false
      → nat_beq d.size 0 ≡ true
      → begin_frame r rest d ≡ next (framed r d in_header) rest (started d ∷ complete ∷ [])
  unfolding begin_frame
  frame_empty within empty = rw (within, empty)

  pub frame_begun :
      ltb r.max_blobs ((r.blobs + 1) % u64_mod) ≡ false
      → nat_beq d.size 0 ≡ false
      → begin_frame r rest d ≡ next (framed r d in_payload) rest (started d ∷ [])
  unfolding begin_frame
  frame_begun within more = rw (within, more)

module _ (p : Protocol) (laws : IsProtocol p) (r : PackReader) (b : ℕ) (ready : IsReady p r) where
  pub in_magic_completes :
      (bs : List ℕ) → r.state ≡ in_magic → length r.buffer + 1 ≡ length p.magic → Reading p r b bs
  in_magic_completes bs e h = elim (Bool-cases (r.buffer ++ (b ∷ []) == p.magic)) [
    | inl same ↦
        advanced p r b ready bs (record r { buffer = []; state = in_header }) []
          (λ cs. turn-at p r in_magic (b ∷ cs) e ∙ magic_complete p r b cs h ∙ rw same)
          (record {
            progress = omega (arith, laws.frame_header);
            bytes_within = ready.bytes_within;
            blobs_within = ready.blobs_within;
          })
          refl
    | inr other ↦
        failed p r b ready bs PackError.magic
          (λ cs. turn-at p r in_magic (b ∷ cs) e ∙ magic_complete p r b cs h ∙ rw other)
  ]

  framed-IsReady :
      (d : Digest) (st : State)
      → ltb r.max_blobs ((r.blobs + 1) % u64_mod) ≡ false
      → Progress p st (framed (buffered r b) d st)
      → IsReady p (framed (buffered r b) d st)
  framed-IsReady d st within progress = record {
    progress = progress;
    bytes_within = ready.bytes_within;
    blobs_within = not-ltb→le _ _ within;
  }

  begun :
      (bs : List ℕ) (d : Digest)
      → ((cs : List ℕ) → turn p r (b ∷ cs) ≡ begin_frame (buffered r b) cs d)
      → Reading p r b bs
  begun bs d same = elim (Bool-cases (ltb r.max_blobs ((r.blobs + 1) % u64_mod))) [
    | inl over ↦
        failed p r b ready bs (too_many_blobs r.max_blobs)
          (λ cs. same cs ∙ frame_refused (buffered r b) cs d over)
    | inr within ↦ elim (Bool-cases (nat_beq d.size 0)) [
      | inl empty ↦
          advanced p r b ready bs (framed (buffered r b) d in_header) (started d ∷ complete ∷ [])
            (λ cs. same cs ∙ frame_empty (buffered r b) cs d within empty)
            (framed-IsReady d in_header within (omega (arith, laws.frame_header))) refl
      | inr more ↦
          advanced p r b ready bs (framed (buffered r b) d in_payload) (started d ∷ [])
            (λ cs. same cs ∙ frame_begun (buffered r b) cs d within more)
            (framed-IsReady d in_payload within
              (omega (arith, nat_beq-false d.size 0 more), omega (arith, laws.frame_header)))
            refl
    ]
  ]

  pub in_header_completes :
      (bs : List ℕ) → r.state ≡ in_header → length r.buffer + 1 ≡ p.header_bytes → Reading p r b bs
  in_header_completes bs e h = go (parse_header p (buffered r b)) refl
    where
      unparsed :
          (cs : List ℕ)
          → turn p r (b ∷ cs) ≡ start_frame (buffered r b) cs (parse_header p (buffered r b))
      unparsed cs = turn-at p r in_header (b ∷ cs) e ∙ header_complete p r b cs h

      go : (d : Result PackError Digest) → parse_header p (buffered r b) ≡ d → Reading p r b bs
      go (ok d) parsed = begun bs d (λ cs. unparsed cs ∙ rw parsed (unfold start_frame in refl))
      go (err x) parsed =
          failed p r b ready bs x (λ cs. unparsed cs ∙ rw parsed (unfold start_frame in refl))
