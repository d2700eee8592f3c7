-- ===== src/Server/Spool/Bounds.antt =====
-- What the spool's budget (src/server.rs) bounds, over any uploads that begin and end.
use mr_boxington_cache.Prelude.{
  ℕ, ◌+◌, ◌*◌, ◌≤◌, ◌<◌, ◌⊎◌, ◌≡◌, refl, List, [], ◌∷◌, ◌++◌, Option, none, some, ok, err, leb, ltb,
  arith, All, Bool-cases, Option-cases, inl, inr,
}
use mr_boxington_cache.Server.Errors.{ApiError}
use mr_boxington_cache.Server.Spool.{
  Semaphores, IsSemaphore, kibibytes, permits_of, u32_max, new, reserve, reserve_permits, drop,
}

-- An upload under way: the bytes it declared, and the permit it holds.
pub record Upload : Type 0 where
  pub bytes : ℕ
  pub permit : Option ℕ

abbrev pub own : Upload → ℕ
own u = elim u.permit [ none ↦ 0 | some n ↦ n ]

abbrev pub held_permits : List Upload → ℕ
held_permits [] = 0
held_permits (u ∷ us) = own u + held_permits us

abbrev pub spooled : List Upload → ℕ
spooled [] = 0
spooled (u ∷ us) = u.bytes + spooled us

-- The uploads that the budget can be asked for, and their ends, in any order.
pub data Reachable {S : Type 0} (o : Semaphores S) (max_bytes : ℕ)
    : Option S → List Upload → Type 0 where
  start : Reachable o max_bytes (new o max_bytes) []
  begin :
      (budget budget' : Option S) (us : List Upload) (bytes : ℕ) (permit : Option ℕ)
      → Reachable o max_bytes budget us
      → reserve o bytes budget ≡ (ok permit, budget')
      → Reachable o max_bytes budget' (record { bytes = bytes; permit = permit } ∷ us)
  refuse :
      (budget budget' : Option S) (us : List Upload) (bytes : ℕ) (e : ApiError)
      → Reachable o max_bytes budget us
      → reserve o bytes budget ≡ (err e, budget')
      → Reachable o max_bytes budget' us
  finish :
      (budget : Option S) (before after : List Upload) (u : Upload)
      → Reachable o max_bytes budget (before ++ (u ∷ after))
      → Reachable o max_bytes (drop o u.permit budget) (before ++ after)

abbrev Covered : List Upload → Type 0
Covered us = All (λ u. u.bytes ≤ 1024 * own u) us

-- The books balance: what is available and what is held is what there was, and each upload holds
-- enough for its bytes. There is no budget only where the limit is zero.
abbrev Balanced : {S : Type 0} → Semaphores S → ℕ → Option S → List Upload → Type 0
Balanced o max_bytes none us = max_bytes ≡ 0
Balanced o max_bytes (some s) us =
    (o.available s + held_permits us ≡ permits_of o.max_permits max_bytes) × Covered us

Covered-spooled : (us : List Upload) → Covered us → spooled us ≤ 1024 * held_permits us
Covered-spooled [] c = omega arith
Covered-spooled (u ∷ us) c = omega (arith, Covered-spooled us c.1, c.0)

held_permits-append :
    (before after : List Upload) (u : Upload)
    → held_permits (before ++ (u ∷ after)) ≡ own u + held_permits (before ++ after)
held_permits-append [] after u = refl
held_permits-append (v ∷ before) after u = omega (arith, held_permits-append before after u)

Covered-append :
    (before after : List Upload) (u : Upload)
    → Covered (before ++ (u ∷ after))
    → Covered (before ++ after)
Covered-append [] after u c = c.1
Covered-append (v ∷ before) after u c = (c.0, Covered-append before after u c.1)

module _ {S : Type 0} (o : Semaphores S) (laws : IsSemaphore o) (max_bytes : ℕ) where
  Balanced-new : Balanced o max_bytes (new o max_bytes) []
  unfolding new
  Balanced-new = elim (Bool-cases (ltb 0 max_bytes)) [
    | inl limited ↦ rw limited (
      omega (arith, laws.available-create (permits_of o.max_permits max_bytes) (omega arith)),
      tt,
    )
    | inr unlimited ↦ rw unlimited (ground (arith, unlimited))
  ]

  Balanced-acquired :
      (s : S) (budget' : Option S) (us : List Upload) (bytes : ℕ) (permit : Option ℕ)
      → Balanced o max_bytes (some s) us
      → reserve_permits o (kibibytes bytes) s ≡ (ok permit, budget')
      → Balanced o max_bytes budget' (record { bytes = bytes; permit = permit } ∷ us)
  unfolding reserve_permits
  Balanced-acquired s budget' us bytes permit b e =
      elim (Option-cases (o.try_acquire_many (kibibytes bytes) s)) [
        | inl full ↦ absurd (cc (rw (reserve_permits, full) at e))
        | inr (s', got) ↦
            let e' = rw (reserve_permits, got) at e in
            let is_some : budget' ≡ some s' = ground (arith, e') in
            let holds : permit ≡ some (kibibytes bytes) = ground (arith, e') in
            rw (is_some, holds)
              (omega (arith, laws.acquired (kibibytes bytes) s s' got, b.0), (omega arith, b.1))
      ]

  Balanced-reserve :
      (budget budget' : Option S) (us : List Upload) (bytes : ℕ) (permit : Option ℕ)
      → Balanced o max_bytes budget us
      → reserve o bytes budget ≡ (ok permit, budget')
      → Balanced o max_bytes budget' (record { bytes = bytes; permit = permit } ∷ us)
  unfolding reserve
  Balanced-reserve none budget' us bytes permit b e =
      let is_none : budget' ≡ none = ground (arith, e) in rw is_none b
  Balanced-reserve (some s) budget' us bytes permit b e =
      elim (Bool-cases (leb (kibibytes bytes) u32_max)) [
        | inl fits ↦ Balanced-acquired s budget' us bytes permit b (rw fits at e)
        | inr huge ↦ absurd (cc (rw huge at e))
      ]

  refused_permits :
      (s : S) (budget' : Option S) (bytes : ℕ) (x : ApiError)
      → reserve_permits o (kibibytes bytes) s ≡ (err x, budget')
      → (budget' ≡ some s) × (o.available s < kibibytes bytes)
  unfolding reserve_permits
  refused_permits s budget' bytes x e =
      elim (Option-cases (o.try_acquire_many (kibibytes bytes) s)) [
        | inl full ↦
            (ground (arith, rw (reserve_permits, full) at e), laws.refused (kibibytes bytes) s full)
        | inr (s', got) ↦ absurd (cc (rw (reserve_permits, got) at e))
      ]

  -- A refusal takes nothing, and has one of two reasons.
  refused_reserve :
      (budget budget' : Option S) (us : List Upload) (bytes : ℕ) (x : ApiError)
      → Balanced o max_bytes budget us
      → reserve o bytes budget ≡ (err x, budget')
      → (budget' ≡ budget)
        × ((u32_max < kibibytes bytes)
            ⊎ (permits_of o.max_permits max_bytes < held_permits us + kibibytes bytes))
  unfolding reserve
  refused_reserve none budget' us bytes x b e = absurd cc
  refused_reserve (some s) budget' us bytes x b e =
      elim (Bool-cases (leb (kibibytes bytes) u32_max)) [
        | inl fits ↦
            let (same, full) = refused_permits s budget' bytes x (rw fits at e) in
            (same, inr (omega (arith, full, b.0)))
        | inr huge ↦ (ground (arith, rw huge at e), inl (ground (arith, huge)))
      ]

  Balanced-drop :
      (budget : Option S) (before after : List Upload) (bytes : ℕ) (permit : Option ℕ)
      → Balanced o max_bytes budget (before ++ (record { bytes = bytes; permit = permit } ∷ after))
      → Balanced o max_bytes (drop o permit budget) (before ++ after)
  unfolding drop
  Balanced-drop none before after bytes none b = b
  Balanced-drop none before after bytes (some n) b = b
  Balanced-drop (some s) before after bytes none b = (
    omega (arith, b.0, held_permits-append before after (record { bytes = bytes; permit = none })),
    Covered-append before after _ b.1,
  )
  Balanced-drop (some s) before after bytes (some n) b = (
    omega (
      arith,
      b.0,
      laws.available-release n s,
      held_permits-append before after (record { bytes = bytes; permit = some n }),
    ),
    Covered-append before after _ b.1,
  )

  Reachable-Balanced :
      (budget : Option S) (us : List Upload)
      → Reachable o max_bytes budget us
      → Balanced o max_bytes budget us
  Reachable-Balanced _ _ start = Balanced-new
  Reachable-Balanced _ _ (begin budget budget' us bytes permit r e) =
      Balanced-reserve budget budget' us bytes permit (Reachable-Balanced budget us r) e
  Reachable-Balanced _ _ (refuse budget budget' us bytes x r e) =
      let b = Reachable-Balanced budget us r in
      rw (refused_reserve budget budget' us bytes x b e).0 b
  Reachable-Balanced _ _ (finish budget before after u r) =
      Balanced-drop budget before after u.bytes u.permit (Reachable-Balanced budget _ r)

  spooled-Balanced :
      (budget : Option S) (us : List Upload)
      → 0 < max_bytes
      → Balanced o max_bytes budget us
      → spooled us ≤ 1024 * kibibytes max_bytes
  spooled-Balanced none us limited b = absurd (omega arith)
  spooled-Balanced (some s) us limited b = omega (arith, b.0, Covered-spooled us b.1, within)
    where
      within : 1024 * permits_of o.max_permits max_bytes ≤ 1024 * kibibytes max_bytes
      within = ground arith

  -- Where the semaphore keeps its laws and the spool has a limit, the uploads under way never declare more bytes than the limit
  -- rounded up to a KiB, in whatever order uploads begin, are refused and end.
  pub spooled-Reachable :
      (budget : Option S) (us : List Upload)
      → 0 < max_bytes
      → Reachable o max_bytes budget us
      → spooled us ≤ 1024 * kibibytes max_bytes
  spooled-Reachable budget us limited r =
      spooled-Balanced budget us limited (Reachable-Balanced budget us r)

  -- Where the semaphore keeps its laws, an upload is refused only where its size needs more permits than a `u32` counts or than the
  -- limit leaves beside the uploads under way, and a refused upload leaves the budget as it was.
  pub reserve-eq-err :
      (budget budget' : Option S) (us : List Upload) (bytes : ℕ) (x : ApiError)
      → Reachable o max_bytes budget us
      → reserve o bytes budget ≡ (err x, budget')
      → (budget' ≡ budget)
        × ((u32_max < kibibytes bytes)
            ⊎ (permits_of o.max_permits max_bytes < held_permits us + kibibytes bytes))
  reserve-eq-err budget budget' us bytes x r e =
      refused_reserve budget budget' us bytes x (Reachable-Balanced budget us r) e
