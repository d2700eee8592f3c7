-- ===== src/Pack/Reading/Payload.antt =====
-- Turns of `push` (src/pack.rs) inside the payload of a frame.
use mr_boxington_cache.Prelude.{
  ℕ, suc, ◌+◌, ◌-◌, ◌%◌, ◌<◌, ◌≡◌, refl, sym, subst, ap, ◌∙◌, ◌⊎◌, min, true, false, List, [], ◌∷◌,
  length, take, drop, ltb, lt→ltb, ltb→lt, not-ltb→le, nat_beq, nat_beq-false, nat_beq_iff,
  if◌then◌else◌, arith, Bool-cases, inl, inr,
}
use mr_boxington_cache.Prelude.Equality.{nat_eq, list_eq}
use mr_boxington_cache.Protocol.{Protocol, IsProtocol, u64_mod}
use mr_boxington_cache.Pack.{
  payload, complete, too_many_bytes, in_header, in_payload, PackReader, Turn, fail, next,
  payload_turn, turn_in, turn,
}
use mr_boxington_cache.Pack.Bytewise.{Progress, IsReady, settle, byte}
use mr_boxington_cache.Pack.Reading.{
  stretch, Reading, fails, advances, stretches, IsPaid, turn-at, advanced,
}

-- A turn in a payload that takes `n` bytes, which the counter has room for.
unfoldable pub paid : PackReader → List ℕ → ℕ → Turn
paid r rest n =
    if ltb r.max_payload_bytes (r.payload_bytes + n)
    then fail (too_many_bytes r.max_payload_bytes)
    else (if nat_beq (r.remaining - n) 0
        then next
            (record r {
              remaining = r.remaining - n;
              payload_bytes = r.payload_bytes + n;
              state = in_header;
            })
            (drop n rest) (payload (take n rest) ∷ complete ∷ [])
        else next (record r { remaining = r.remaining - n; payload_bytes = r.payload_bytes + n })
            (drop n rest) (payload (take n rest) ∷ []))

payload_takes :
    (r : PackReader) (c : ℕ) (cs : List ℕ) (n : ℕ)
    → n ≡ min r.remaining (suc (length cs))
    → r.payload_bytes + n < u64_mod
    → payload_turn r (c ∷ cs) ≡ paid r (c ∷ cs) n
unfolding payload_turn paid
payload_takes r c cs n e room =
    let exact : (r.payload_bytes + n) % u64_mod ≡ r.payload_bytes + n = omega arith in
    rw (← e, exact)

paid-stretch :
    (r : PackReader) (b : ℕ) (rest : List ℕ) (n : ℕ)
    → paid r (b ∷ rest) (suc n)
      ≡ stretch b (
          paid
            (record r { remaining = r.remaining - 1; payload_bytes = r.payload_bytes + 1 })
            rest
            n)
unfolding paid stretch
paid-stretch r b rest n = ground arith

paid-IsPaid : (r : PackReader) (rest : List ℕ) (n : ℕ) → IsPaid (paid r rest n)
unfolding paid
paid-IsPaid r rest n = elim (Bool-cases (ltb r.max_payload_bytes (r.payload_bytes + n))) [
  | inl over ↦ rw over tt
  | inr within ↦ elim (Bool-cases (nat_beq (r.remaining - n) 0)) [
    | inl last ↦ rw (within, last) tt
    | inr more ↦ rw (within, more) tt
  ]
]

-- The reader behind one byte of a longer payload.
abbrev consumed : PackReader → PackReader
consumed r = record r { remaining = r.remaining - 1; payload_bytes = r.payload_bytes + 1 }

pub pays :
    (p : Protocol) (r : PackReader) (c : ℕ) (cs : List ℕ) (n : ℕ)
    → r.state ≡ in_payload
    → n ≡ min r.remaining (suc (length cs))
    → r.payload_bytes + n < u64_mod
    → turn p r (c ∷ cs) ≡ paid r (c ∷ cs) n
pays p r c cs n e size room =
    turn-at p r in_payload (c ∷ cs) e ∙ unfold turn_in in payload_takes r c cs n size room

module _ (p : Protocol) (laws : IsProtocol p) (r : PackReader) (b : ℕ) (ready : IsReady p r)
    (e : r.state ≡ in_payload) (more : Progress p in_payload r)
    (room : r.max_payload_bytes + 1 < u64_mod) where
  pays_one : (bs : List ℕ) → r.remaining ≡ 1 ⊎ (bs ≡ []) → turn p r (b ∷ bs) ≡ paid r (b ∷ bs) 1
  pays_one bs (inl last) = pays p r b bs 1 e (omega arith) (omega (arith, ready.bytes_within))
  pays_one bs (inr none_left) =
      pays p r b bs 1 e (rw none_left (omega arith)) (omega (arith, ready.bytes_within))

  over_limit :
      (bs : List ℕ)
      → ltb r.max_payload_bytes (r.payload_bytes + 1) ≡ true
      → r.max_payload_bytes + suc (length bs) < u64_mod
      → Reading p r b bs
  unfolding byte settle paid
  over_limit bs over fits =
      let n = min r.remaining (suc (length bs)) in
      fails (too_many_bytes r.max_payload_bytes)
        (pays p r b bs n e refl (omega (arith, ready.bytes_within))
          ∙ rw (lt→ltb r.max_payload_bytes (r.payload_bytes + n) (omega (arith, ltb→lt _ _ over))))
        (rw (pays_one [] (inr refl), over))

  module _ (within : ltb r.max_payload_bytes (r.payload_bytes + 1) ≡ false) where
    paid_last : (bs : List ℕ) → nat_beq (r.remaining - 1) 0 ≡ true → Reading p r b bs
    unfolding paid
    paid_last bs last =
        advanced p r b ready bs (record (consumed r) { state = in_header })
          (payload (b ∷ []) ∷ complete ∷ [])
          (λ cs. pays_one cs (inl (omega (arith, (nat_beq_iff _ _).0 last))) ∙ rw (within, last))
          (record {
            progress = more.1;
            bytes_within = not-ltb→le _ _ within;
            blobs_within = ready.blobs_within;
          })
          refl

    module _ (rest : nat_beq (r.remaining - 1) 0 ≡ false) where
      consumed-IsReady : IsReady p (consumed r)
      consumed-IsReady = record {
        progress =
            subst (λ s. Progress p s (consumed r)) (sym e)
              (omega (arith, nat_beq-false _ _ rest), more.1);
        bytes_within = not-ltb→le _ _ within;
        blobs_within = ready.blobs_within;
      }

      consumed_alone : turn p r (b ∷ []) ≡ next (consumed r) [] (payload (b ∷ []) ∷ [])
      unfolding paid
      consumed_alone = pays_one [] (inr refl) ∙ rw (within, rest)

      paid_more : (bs : List ℕ) → r.max_payload_bytes + suc (length bs) < u64_mod → Reading p r b bs
      unfolding byte settle
      paid_more [] fits =
          advances (consumed r) (payload (b ∷ []) ∷ []) consumed_alone (rw consumed_alone)
            consumed-IsReady refl
      paid_more (c ∷ cs) fits =
          let n = min (r.remaining - 1) (suc (length cs)) in
          let paid_next : turn p (consumed r) (c ∷ cs) ≡ paid (consumed r) (c ∷ cs) n =
            pays p (consumed r) c cs n e refl (omega (arith, ready.bytes_within)) in
          stretches (consumed r) (rw paid_next (paid-IsPaid (consumed r) (c ∷ cs) n))
            (pays p r b (c ∷ cs) (suc n) e (omega (arith, nat_beq-false _ _ rest))
                (omega (arith, ready.bytes_within))
              ∙ paid-stretch r b (c ∷ cs) n
              ∙ ap (stretch b) (sym paid_next))
            (rw consumed_alone) consumed-IsReady refl

  pub in_payload_reads :
      (bs : List ℕ) → r.max_payload_bytes + suc (length bs) < u64_mod → Reading p r b bs
  in_payload_reads bs fits = elim (Bool-cases (ltb r.max_payload_bytes (r.payload_bytes + 1))) [
    | inl over ↦ over_limit bs over fits
    | inr within ↦ elim (Bool-cases (nat_beq (r.remaining - 1) 0)) [
      | inl last ↦ paid_last within bs last
      | inr rest ↦ paid_more within rest bs fits
    ]
  ]
