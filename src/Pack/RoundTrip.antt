-- ===== src/Pack/RoundTrip.antt =====
-- The pack that the service serves (the stream of `pack_blobs` in src/server.rs) is read back by
-- the reader of src/pack.rs.
use mr_boxington_cache.Prelude.{
  ℕ, zero, suc, ◌+◌, ◌≤◌, ◌<◌, ◌≡◌, refl, ap, ◌∙◌, List, [], ◌∷◌, ◌++◌, append_assoc, append-nil,
  length, length-append, ok, >>=-eq-ok, arith, All,
}
use mr_boxington_cache.Prelude.Equality.{nat_eq, list_eq, eq_refl}
use mr_boxington_cache.Protocol.{Protocol, IsProtocol, Digest, u64_mod}
use mr_boxington_cache.Pack.{
  PackEvent, started, payload, complete, PackReader, new, in_header, halt, next, turn, turn_in,
  push_loop, push, finish, magic_turn, header_turn,
}
use mr_boxington_cache.Pack.Reading.{turn-at}
use mr_boxington_cache.Pack.Header.{Header, Header-of, header_bytes_of, header-shape, length-header}
use mr_boxington_cache.Pack.Frames.{
  Blobs, frames, pack_body, blob_events, all_events, total_bytes, IsBlob, AtHeader, behind,
  behind_one, fill_whole, loop_next, loop_halt, Fits, Fits-behind, empty_read, payload_read,
  begun_read,
}

-- The loop over the frames of a pack.
module _ (p : Protocol) (laws : IsProtocol p) where
  blob_read :
      (d : Digest) (content rest : List ℕ) (blobs : Blobs) (fuel : ℕ) (r : PackReader)
      (events : List PackEvent)
      → (h : Header p d) → AtHeader r
      → Fits p r ((d, content) ∷ blobs)
      → (k : ℕ) × (push_loop p
            (suc (suc fuel))
            r
            (header_bytes_of p laws d h ++ (content ++ rest))
            events
          ≡ push_loop p k (behind_one r content) rest (events ++ blob_events d content))
        × (fuel ≤ k)
  blob_read d [] rest blobs fuel r events h at fits = (
    suc fuel,
    loop_next p (suc fuel) r (behind_one r []) _ rest events _
        (empty_read p laws d h r at rest blobs fits),
    omega arith,
  )
  blob_read d (c ∷ cs) rest blobs fuel r events h at fits = (
    fuel,
    loop_next p (suc fuel) r _ _ _ events (started d ∷ [])
          (begun_read p laws d h r at c cs rest blobs fits)
        ∙ loop_next p fuel _ (behind_one r (c ∷ cs)) _ rest _ _
            (payload_read p laws d h r at c cs rest blobs fits)
        ∙ ap (push_loop p fuel (behind_one r (c ∷ cs)) rest)
            (append_assoc events (started d ∷ []) (payload (c ∷ cs) ∷ complete ∷ [])),
    omega arith,
  )

  header_waits : (r : PackReader) → AtHeader r → turn p r [] ≡ halt r
  header_waits r at =
      turn-at p r in_header [] at.state ∙ (unfold turn_in header_turn in ground (arith, at.buffer))

  frames_cons :
      (d : Digest) (content body : List ℕ) (blobs : Blobs) (h : Header p d)
      → frames p ((d, content) ∷ blobs) ≡ ok body
      → (rest : List ℕ) × (frames p blobs ≡ ok rest)
        × (body ≡ header_bytes_of p laws d h ++ (content ++ rest))
  unfolding frames
  frames_cons d content body blobs h e =
      let (rest, f, g) =
        >>=-eq-ok (frames p blobs) (λ rest. ok (header_bytes_of p laws d h ++ (content ++ rest)))
          (rw (header-shape p laws d h) at e) in
      (rest, f, ground arith)

  length-frame :
      (d : Digest) (content rest : List ℕ) (h : Header p d)
      → length (header_bytes_of p laws d h ++ (content ++ rest)) ≡ 41 + length content + length rest
  length-frame d content rest h = omega (
    arith,
    length-append (header_bytes_of p laws d h) (content ++ rest),
    length-append content rest,
    length-header p laws d h,
    laws.frame_header,
  )

  frames_read :
      (blobs : Blobs) (body : List ℕ) (fuel : ℕ) (r : PackReader) (events : List PackEvent)
      → frames p blobs ≡ ok body
      → length body < fuel
      → AtHeader r
      → Fits p r blobs
      → push_loop p fuel r body events ≡ ok (behind r blobs, events ++ all_events blobs)
  frames_read blobs body zero r events e enough at fits = absurd (omega arith)
  frames_read [] body (suc fuel) r events e enough at fits =
      let none_left : body ≡ [] = unfold frames in ground arith in
      rw (none_left, append-nil events) (loop_halt p fuel r r [] events (header_waits r at))
  frames_read ((d, content) ∷ blobs) body (suc zero) r events e enough at fits =
      let h = Header-of p laws d fits.all_blobs.0.0 in
      let (rest, f, g) = frames_cons d content body blobs h e in
      absurd (omega (arith, ap length g, length-frame d content rest h))
  frames_read ((d, content) ∷ blobs) body (suc (suc fuel)) r events e enough at fits =
      let h = Header-of p laws d fits.all_blobs.0.0 in
      let (rest, f, g) = frames_cons d content body blobs h e in
      let (k, step, more) = blob_read d content rest blobs fuel r events h at fits in
      rw g step
      ∙ frames_read blobs rest k (behind_one r content) (events ++ blob_events d content) f
          (omega (arith, ap length g, length-frame d content rest h))
          (record { state = refl; buffer = refl }) (Fits-behind p r d content blobs fits)
      ∙ ap (λ x. ok (behind (behind_one r content) blobs, x))
          (append_assoc events (blob_events d content) (all_events blobs))

  frames_total :
      (blobs : Blobs) (ceiling : ℕ)
      → All (IsBlob p ceiling) blobs
      → (body : List ℕ) × (frames p blobs ≡ ok body)
  unfolding frames
  frames_total [] ceiling all = ([], refl)
  frames_total ((d, content) ∷ blobs) ceiling all =
      let (rest, e) = frames_total blobs ceiling all.1 in
      let h = Header-of p laws d all.0.0 in
      (header_bytes_of p laws d h ++ (content ++ rest), rw (header-shape p laws d h, e))

  magic_read :
      (ceiling count bytes : ℕ) (rest : List ℕ)
      → turn p (new ceiling count bytes) (p.magic ++ rest)
        ≡ next (record (new ceiling count bytes) { state = in_header }) rest []
  unfolding turn turn_in magic_turn
  magic_read ceiling count bytes rest = rw (
    fill_whole (new ceiling count bytes) p.magic rest (length p.magic) refl refl laws.magic_some,
    eq_refl p.magic,
  )

behind_counts :
    (r : PackReader) (blobs : Blobs)
    → AtHeader r
    → AtHeader (behind r blobs)
      × ((behind r blobs).blobs ≡ r.blobs + length blobs)
      × ((behind r blobs).payload_bytes ≡ r.payload_bytes + total_bytes blobs)
behind_counts r [] at = (at, omega arith, omega arith)
behind_counts r ((d, content) ∷ blobs) at =
    let (at', count, bytes) =
      behind_counts (behind_one r content) blobs (record { state = refl; buffer = refl }) in
    (at', omega (arith, count), omega (arith, bytes))

finish-AtHeader : (r : PackReader) → AtHeader r → finish r ≡ ok tt
unfolding finish
finish-AtHeader r at = ground (arith, at.state, at.buffer)

-- Every list of blobs, each with a valid digest of its size and within the ceiling for one blob, has
-- a pack, where the protocol keeps its laws; and a reader that is told no less than the pack holds,
-- and no number of 2^64 or more, reads it whole in one chunk: the events are each blob's digest, contents and end, the
-- pack ends on a frame boundary, and the reader has counted the blobs and their bytes.
pub push-pack_body :
    (p : Protocol)
    → IsProtocol p
    → (blobs : Blobs) (ceiling count bytes : ℕ) → All (IsBlob p ceiling) blobs
    → (length blobs ≤ count) × (count < u64_mod)
    → (total_bytes blobs ≤ bytes) × (bytes < u64_mod)
    → (body : List ℕ) × (pack_body p blobs ≡ ok body)
      × (r : PackReader) × (push p (new ceiling count bytes) body ≡ ok (r, all_events blobs))
      × (finish r ≡ ok tt)
      × (r.blobs ≡ length blobs)
      × (r.payload_bytes ≡ total_bytes blobs)
push-pack_body p laws blobs ceiling count bytes all counts sizes =
    let r0 = record (new ceiling count bytes) { state = in_header } in
    let at0 : AtHeader r0 = record { state = refl; buffer = refl } in
    let (rest, e) = frames_total p laws blobs ceiling all in
    let (at, n, m) = behind_counts r0 blobs at0 in
    let body = p.magic ++ rest in
    (
      body,
      unfold pack_body in rw e,
      behind r0 blobs,
      unfold push in
          loop_next p (length body) (new ceiling count bytes) r0 body rest [] []
            (magic_read p laws ceiling count bytes rest)
          ∙ frames_read p laws blobs rest (length body) r0 [] e
              (omega (arith, length-append p.magic rest, laws.magic_some)) at0
              (record {
                all_blobs = all;
                count = omega (arith, counts.0);
                count_room = counts.1;
                bytes = omega (arith, sizes.0);
                bytes_room = sizes.1;
              }),
      finish-AtHeader _ at,
      omega (arith, n),
      omega (arith, m),
    )
