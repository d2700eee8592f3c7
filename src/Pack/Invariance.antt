-- ===== src/Pack/Invariance.antt =====
-- The boundaries of the chunks do not change what an uploaded pack is read as (src/pack.rs), and
-- `push` always returns.
use mr_boxington_cache.Prelude.{
  ℕ, zero, suc, ◌+◌, ◌<◌, ◌≡◌, ◌≢◌, refl, sym, ap, ◌⊎◌, subst, ◌∙◌, List, [], ◌∷◌, ◌++◌, length,
  length-append, ok, err, ◌>>=◌, Result-cases, bind_congr, arith, inl, inr,
}
use mr_boxington_cache.Protocol.{Protocol, IsProtocol, u64_mod}
use mr_boxington_cache.Pack.{
  PackEvent, payload, PackError, refused, out_of_fuel, PackReader, Turn, halt, fail, next, turn,
  push,
}
use mr_boxington_cache.Pack.Bytewise.{IsReady, byte, turn-nil}
use mr_boxington_cache.Pack.Reading.{fails, advances, absorbs, stretches, IsPaid, stretch}
use mr_boxington_cache.Pack.Reading.Total.{reading}
use mr_boxington_cache.Pack.Chunks.{
  concat, deliver, feed, feed_all, bytes, run, feed-run, run_halt, run_fail, run_next, run_same,
  bytes_ok, bytes_err,
}

-- A caller for whom a payload in two events is as good as in one.
abbrev pub Splits : {S : Type 0} → (PackEvent → S → S) → Type 0
Splits {S} on =
    (xs ys : List ℕ) (s : S) → on (payload (xs ++ ys)) s ≡ on (payload ys) (on (payload xs) s)

-- The limit and the bytes to come stay below the wrap-around of the byte counter.
abbrev pub HasRoom : PackReader → List ℕ → Type 0
HasRoom r bs = r.max_payload_bytes + length bs < u64_mod

module _ {S : Type 0} (on : PackEvent → S → S) (split : Splits on) (p : Protocol)
    (laws : IsProtocol p) where
  run_stretch :
      (fuel : ℕ) (r r' : PackReader) (b : ℕ) (rest rest' : List ℕ) (s : S) (t : Turn)
      → IsPaid t
      → turn p r' rest' ≡ t
      → turn p r rest ≡ stretch b t
      → run on p (suc fuel) r rest s
        ≡ run on p (suc fuel) r' rest' (deliver on (payload (b ∷ []) ∷ []) s)
  unfolding run stretch deliver
  run_stretch fuel r r' b rest rest' s (fail x) paid e f =
      run_fail on p fuel r rest s x f
      ∙ sym (run_fail on p fuel r' rest' (deliver on (payload (b ∷ []) ∷ []) s) x e)
  run_stretch fuel r r' b rest rest' s (halt r'') paid e f = absurd paid
  run_stretch fuel r r' b rest rest' s (next r'' back []) paid e f = absurd paid
  run_stretch fuel r r' b rest rest' s (next r'' back (PackEvent.started d ∷ es)) paid e f =
      absurd paid
  run_stretch fuel r r' b rest rest' s (next r'' back (PackEvent.complete ∷ es)) paid e f =
      absurd paid
  run_stretch fuel r r' b rest rest' s (next r'' back (payload q ∷ es)) paid e f =
      run_next on p fuel r r'' rest back (payload (b ∷ q) ∷ es) s f
      ∙ ap (λ x. run on p fuel r'' back (deliver on es x)) (split (b ∷ []) q s)
      ∙ sym (run_next on p fuel r' r'' rest' back (payload q ∷ es) _ e)

  run-bytes :
      (bs : List ℕ) (fuel : ℕ) (r : PackReader) (s : S)
      → IsReady p r
      → HasRoom r bs
      → length bs < fuel
      → run on p fuel r bs s ≡ bytes on p r bs s
  run-bytes bs zero r s ready room enough = absurd (omega arith)
  run-bytes [] (suc fuel) r s ready room enough =
      unfold bytes in run_halt on p fuel r r [] s (turn-nil p r ready)
  run-bytes (b ∷ bs) (suc fuel) r s ready room enough = elim (reading p laws r b bs ready room) [
    | fails e t u ↦ run_fail on p fuel r (b ∷ bs) s e t ∙ sym (bytes_err on p r b bs s e u)
    | advances r' events t u ready' same ↦
        run_next on p fuel r r' (b ∷ bs) bs events s t
        ∙ run-bytes bs fuel r' (deliver on events s) ready' (omega arith) (omega arith)
        ∙ sym (bytes_ok on p r r' b bs events s u)
    | absorbs r' t u ready' same ↦
        run_same on p fuel r r' (b ∷ bs) bs s t
        ∙ run-bytes bs (suc fuel) r' s ready' (omega arith) (omega arith)
        ∙ unfold deliver in sym (bytes_ok on p r r' b bs [] s u)
    | stretches r' paid t u ready' same ↦
        run_stretch fuel r r' b (b ∷ bs) bs s (turn p r' bs) paid refl t
        ∙ run-bytes bs (suc fuel) r' (deliver on (payload (b ∷ []) ∷ []) s) ready' (omega arith)
            (omega arith)
        ∙ sym (bytes_ok on p r r' b bs (payload (b ∷ []) ∷ []) s u)
  ]

  feed-bytes :
      (r : PackReader) (chunk : List ℕ) (s : S)
      → IsReady p r
      → HasRoom r chunk
      → feed on p r chunk s ≡ bytes on p r chunk s
  feed-bytes r chunk s ready room =
      feed-run on p r chunk s ∙ run-bytes chunk (suc (length chunk)) r s ready room (omega arith)

  -- The reader behind one byte is ready, under the same limit.
  abbrev Follows : PackReader → PackReader → Type 0
  Follows r r' = IsReady p r' × (r'.max_payload_bytes ≡ r.max_payload_bytes)

  byte-Follows :
      (r r' : PackReader) (b : ℕ) (events : List PackEvent)
      → IsReady p r
      → HasRoom r (b ∷ [])
      → byte p r b ≡ ok (r', events)
      → Follows r r'
  byte-Follows r r' b events ready room e = elim (reading p laws r b [] ready room) [
    | fails x t u ↦ cc
    | advances r'' events' t u ready' same ↦ subst (Follows r) (ground arith) (ready', same)
    | absorbs r'' t u ready' same ↦ subst (Follows r) (ground arith) (ready', same)
    | stretches r'' paid t u ready' same ↦ subst (Follows r) (ground arith) (ready', same)
  ]

  bytes-Follows :
      (bs : List ℕ) (r r' : PackReader) (s s' : S)
      → IsReady p r
      → HasRoom r bs
      → bytes on p r bs s ≡ ok (r', s')
      → Follows r r'
  bytes-Follows [] r r' s s' ready room e =
      subst (Follows r) {x = r} (unfold bytes in ground arith) (ready, refl)
  bytes-Follows (b ∷ bs) r r' s s' ready room e = elim (Result-cases (byte p r b)) [
    | inr (x, u) ↦ cc (bytes_err on p r b bs s x u)
    | inl ((r'', events), u) ↦
        let (ready', same) = byte-Follows r r'' b events ready (omega arith) u in
        let (ready'', same') =
          bytes-Follows bs r'' r' (deliver on events s) s' ready' (omega arith)
            (sym (bytes_ok on p r r'' b bs events s u) ∙ e) in
        (ready'', same' ∙ same)
  ]

  bytes-append :
      (xs ys : List ℕ) (r : PackReader) (s : S)
      → bytes on p r (xs ++ ys) s ≡ (bytes on p r xs s >>= λ x. bytes on p x.0 ys x.1)
  bytes-append [] ys r s = unfold bytes in refl
  bytes-append (b ∷ xs) ys r s = elim (Result-cases (byte p r b)) [
    | inr (x, u) ↦ rw (bytes_err on p r b (xs ++ ys) s x u, bytes_err on p r b xs s x u)
    | inl ((r', events), u) ↦
        rw (bytes_ok on p r r' b (xs ++ ys) events s u, bytes_ok on p r r' b xs events s u)
          (bytes-append xs ys r' (deliver on events s))
  ]

  feed_all-bytes :
      (chunks : List (List ℕ)) (r : PackReader) (s : S)
      → IsReady p r
      → HasRoom r (concat chunks)
      → feed_all on p r chunks s ≡ bytes on p r (concat chunks) s
  unfolding feed_all bytes
  feed_all-bytes [] r s ready room = refl
  feed_all-bytes (c ∷ cs) r s ready room =
      let long = length-append c (concat cs) in
      rw (feed-bytes r c s ready (omega arith)) (
        bind_congr (bytes on p r c s) (λ x. feed_all on p x.0 cs x.1)
          (λ x. bytes on p x.0 (concat cs) x.1)
          (λ x e.
            let (ready', same) = bytes-Follows c r x.0 s x.1 ready (omega arith) e in
            feed_all-bytes cs x.0 x.1 ready' (omega arith)))
      ∙ sym (bytes-append c (concat cs) r s)

  -- A body that arrives in chunks, wherever it is cut, is read as the whole body in one chunk:
  -- the same failure, or the same reader and the same contents, for every caller that takes a
  -- payload in two events for the same as in one. The protocol keeps
  -- its laws, the reader waits for a byte, and its limit and
  -- the body together stay below the wrap-around of the byte counter.
  pub feed_all-concat :
      (chunks : List (List ℕ)) (r : PackReader) (s : S)
      → IsReady p r
      → HasRoom r (concat chunks)
      → feed_all on p r chunks s ≡ feed on p r (concat chunks) s
  feed_all-concat chunks r s ready room =
      feed_all-bytes chunks r s ready room ∙ sym (feed-bytes r (concat chunks) s ready room)

  bytes-ne-out_of_fuel :
      (bs : List ℕ) (r : PackReader) (s : S) → bytes on p r bs s ≢ err out_of_fuel
  bytes-ne-out_of_fuel [] r s e = unfold bytes in cc
  bytes-ne-out_of_fuel (b ∷ bs) r s e = elim (Result-cases (byte p r b)) [
    | inr (x, u) ↦ cc (bytes_err on p r b bs s x u)
    | inl ((r', events), u) ↦
        bytes-ne-out_of_fuel bs r' (deliver on events s)
          (sym (bytes_ok on p r r' b bs events s u) ∙ e)
  ]

  pub feed-Follows :
      (r r' : PackReader) (chunk : List ℕ) (s s' : S)
      → IsReady p r
      → HasRoom r chunk
      → feed on p r chunk s ≡ ok (r', s')
      → Follows r r'
  feed-Follows r r' chunk s s' ready room e =
      bytes-Follows chunk r r' s s' ready room (sym (feed-bytes r chunk s ready room) ∙ e)

  pub feed-ne-out_of_fuel :
      (r : PackReader) (chunk : List ℕ) (s : S)
      → IsReady p r
      → HasRoom r chunk
      → feed on p r chunk s ≢ err out_of_fuel
  feed-ne-out_of_fuel r chunk s ready room e =
      bytes-ne-out_of_fuel chunk r s (sym (feed-bytes r chunk s ready room) ∙ e)

-- A caller that only waits.
abbrev ignore : PackEvent → Unit {0} → Unit {0}
ignore e s = tt

-- Where the protocol keeps its laws and the reader's limit and the chunk stay below the wrap-around
-- of the byte counter, `push` on a ready reader returns: its loop does not run out of turns. It fails with one of the
-- pack's errors, or leaves a ready reader whose counters are within their limits.
pub push_total :
    (p : Protocol)
    → IsProtocol p
    → (r : PackReader) (chunk : List ℕ) → IsReady p r
    → HasRoom r chunk
    → ((x : PackReader × List PackEvent) × (push p r chunk ≡ ok x) × IsReady p x.0)
      ⊎ ((e : PackError) × (push p r chunk ≡ err (refused e)))
push_total p laws r chunk ready room = elim (Result-cases (push p r chunk)) [
  | inl (x, e) ↦ inl (
    x,
    e,
    (feed-Follows ignore (λ xs ys s. refl) p laws r x.0 chunk tt tt ready room
        (unfold feed in rw e)).0,
  )
  | inr (refused x, e) ↦ inr (x, e)
  | inr (out_of_fuel, e) ↦ absurd (
      feed-ne-out_of_fuel ignore (λ xs ys s. refl) p laws r chunk tt ready room
        (unfold feed in rw e))
]
