-- ===== src/Server/Pending/Bounds.antt =====
-- The pending accesses (src/server.rs) stay within their limit, and are written in batches.
use mr_boxington_cache.Prelude.{
  ℕ, zero, suc, ◌+◌, ◌≤◌, ◌<◌, ◌≡◌, refl, ap, false, List, [], ◌∷◌, ◌++◌, leb, length, take, drop,
  length-take, length-drop, All, arith, Bool-cases, inl, inr,
}
use mr_boxington_cache.Prelude.Bytes.{Text}
use mr_boxington_cache.Prelude.Equality.{◌==◌, nat_eq, list_eq}
use mr_boxington_cache.Prelude.Maps
use mr_boxington_cache.Protocol.{Digest, digest_eq}
use mr_boxington_cache.Server.Pending.{
  Pending, max_pending_accesses, default, hold, held_of, record_access, chunks, chunks_on,
}

-- The digests across all namespaces, counted.
abbrev pub count : List (Text × List Digest) → ℕ
count [] = 0
count (e ∷ es) = length e.1 + count es

-- `len` is the count of the digests held, within the limit, and no namespace is held for nothing.
pub record IsPending (p : Pending) : Type 0 where
  pub counted : p.len ≡ count p.namespaces
  pub limited : p.len ≤ max_pending_accesses
  pub some_held : All (λ e. 0 < length e.1) p.namespaces

hold_counted :
    (held : List Digest) (len : ℕ) (digests : List Digest)
    → (hold held len digests).1 + length held ≡ len + length (hold held len digests).0
unfolding hold
hold_counted held len [] = omega arith
hold_counted held len (digest ∷ digests) =
    ground (arith, hold_counted held len digests, hold_counted (digest ∷ held) (len + 1) digests)

hold_limited :
    (held : List Digest) (len : ℕ) (digests : List Digest)
    → len ≤ max_pending_accesses
    → (hold held len digests).1 ≤ max_pending_accesses
unfolding hold
hold_limited held len [] h = h
hold_limited held len (digest ∷ digests) h = elim (Bool-cases (leb max_pending_accesses len)) [
  | inl full ↦ ground (arith, full)
  | inr room ↦ ground (
    arith,
    room,
    hold_limited held len digests h,
    hold_limited (digest ∷ held) (len + 1) digests (ground (arith, room)),
  )
]

hold_grows :
    (held : List Digest) (len : ℕ) (digests : List Digest)
    → length held ≤ length (hold held len digests).0
unfolding hold
hold_grows held len [] = omega arith
hold_grows held len (digest ∷ digests) =
    ground (arith, hold_grows held len digests, hold_grows (digest ∷ held) (len + 1) digests)

hold_some :
    (held : List Digest) (len : ℕ) (digest : Digest) (digests : List Digest)
    → leb max_pending_accesses len ≡ false
    → 0 < length (hold held len (digest ∷ digests)).0
unfolding hold
hold_some [] len digest digests room =
    ground (arith, room, hold_grows (digest ∷ []) (len + 1) digests)
hold_some (d ∷ held) len digest digests room =
    omega (arith, hold_grows (d ∷ held) len (digest ∷ digests))

count-insert :
    (namespace : Text) (held : List Digest) (es : List (Text × List Digest))
    → count (Maps.insert namespace held es) + length (held_of namespace es) ≡ count es + length held
unfolding held_of Maps.insert Maps.lookup
count-insert namespace held [] = omega arith
count-insert namespace held (e ∷ es) = ground (arith, count-insert namespace held es)

All-insert :
    (namespace : Text) (held : List Digest) (es : List (Text × List Digest))
    → 0 < length held
    → All (λ e. 0 < length e.1) es
    → All (λ e. 0 < length e.1) (Maps.insert namespace held es)
unfolding Maps.insert
All-insert namespace held [] h a = (h, tt)
All-insert namespace held (e ∷ es) h a = elim (Bool-cases (e.0 == namespace)) [
  | inl same ↦ rw same (h, a.1)
  | inr other ↦ rw other (a.0, All-insert namespace held es h a.1)
]

record_access_room :
    (namespace : Text) (digest : Digest) (digests : List Digest) (p : Pending)
    → leb max_pending_accesses p.len ≡ false
    → record_access namespace (digest ∷ digests) p ≡ (record {
      namespaces =
          Maps.insert namespace
            (hold (held_of namespace p.namespaces) p.len (digest ∷ digests)).0
            p.namespaces;
      len = (hold (held_of namespace p.namespaces) p.len (digest ∷ digests)).1;
    })
unfolding record_access
record_access_room namespace digest digests p room = rw (room, hold)

IsPending-record :
    (namespace : Text) (digest : Digest) (digests : List Digest) (p : Pending)
    → leb max_pending_accesses p.len ≡ false
    → IsPending p
    → IsPending (record_access namespace (digest ∷ digests) p)
IsPending-record namespace digest digests p room w =
    let held = held_of namespace p.namespaces in
    let counts = hold_counted held p.len (digest ∷ digests) in
    let kept = count-insert namespace (hold held p.len (digest ∷ digests)).0 p.namespaces in
    rw (record_access_room namespace digest digests p room) (record {
      counted = omega (arith, counts, kept, w.counted);
      limited = hold_limited held p.len (digest ∷ digests) w.limited;
      some_held =
          All-insert namespace _ p.namespaces (hold_some held p.len digest digests room)
            w.some_held;
    })

record_access-IsPending :
    (namespace : Text) (digests : List Digest) (p : Pending)
    → IsPending p
    → IsPending (record_access namespace digests p)
unfolding record_access
record_access-IsPending namespace [] p w = w
record_access-IsPending namespace (digest ∷ digests) p w =
    elim (Bool-cases (leb max_pending_accesses p.len)) [
      | inl full ↦ rw (record_access, full) w
      | inr room ↦ IsPending-record namespace digest digests p room w
    ]

length-count :
    (es : List (Text × List Digest)) → All (λ e. 0 < length e.1) es → length es ≤ count es
length-count [] a = omega arith
length-count (e ∷ es) a = omega (arith, length-count es a.1, a.0)

-- Reads that come one after the other.
unfoldable pub record_all : List (Text × List Digest) → Pending → Pending
record_all [] p = p
record_all (r ∷ rs) p = record_all rs (record_access r.0 r.1 p)

IsPending-record_all :
    (rs : List (Text × List Digest)) (p : Pending) → IsPending p → IsPending (record_all rs p)
unfolding record_all
IsPending-record_all [] p w = w
IsPending-record_all (r ∷ rs) p w =
    IsPending-record_all rs (record_access r.0 r.1 p) (record_access-IsPending r.0 r.1 p w)

IsPending-default : IsPending default
IsPending-default = record { counted = refl; limited = omega arith; some_held = tt }

-- Whatever reads are noted after a flush, the count kept is the number of digests held, and there
-- are at most `max_pending_accesses` digests, in at most as many namespaces.
pub record_all_bounds :
    (rs : List (Text × List Digest))
    → ((record_all rs default).len ≡ count (record_all rs default).namespaces)
      × ((record_all rs default).len ≤ max_pending_accesses)
      × (length (record_all rs default).namespaces ≤ max_pending_accesses)
record_all_bounds rs =
    let w = IsPending-record_all rs default IsPending-default in
    (
      w.counted,
      w.limited,
      omega (
        arith,
        w.counted,
        w.limited,
        length-count (record_all rs default).namespaces w.some_held,
      ),
    )

abbrev pub joined : {A : Type 0} → List (List A) → List A
joined [] = []
joined (xs ∷ xss) = xs ++ joined xss

take-drop : {A : Type 0} (n : ℕ) (xs : List A) → (take n xs ++ drop n xs) ≡ xs
take-drop zero xs = refl
take-drop (suc n) [] = refl
take-drop (suc n) (x ∷ xs) = ap (λ l. x ∷ l) (take-drop n xs)

chunks_on-All :
    {A : Type 0} (fuel n : ℕ) (xs : List A)
    → 0 < n
    → length xs ≤ fuel
    → (joined (chunks_on fuel n xs) ≡ xs)
      × All (λ c. (0 < length c) × (length c ≤ n)) (chunks_on fuel n xs)
unfolding chunks_on
chunks_on-All zero n [] h enough = (refl, tt)
chunks_on-All zero n (x ∷ xs) h enough = absurd (omega arith)
chunks_on-All (suc fuel) n [] h enough = (refl, tt)
chunks_on-All (suc fuel) n (x ∷ xs) h enough =
    let (same, bounds) =
      chunks_on-All fuel n (drop n (x ∷ xs)) h (omega (arith, length-drop n (x ∷ xs))) in
    (
      rw same (take-drop n (x ∷ xs)),
      ((omega (arith, length-take n (x ∷ xs)), omega (arith, length-take n (x ∷ xs))), bounds),
    )

pub chunks-All :
    {A : Type 0} (n : ℕ) (xs : List A)
    → 0 < n
    → (joined (chunks n xs) ≡ xs) × All (λ c. (0 < length c) × (length c ≤ n)) (chunks n xs)
unfolding chunks
chunks-All n xs h = chunks_on-All (length xs) n xs h (omega arith)
