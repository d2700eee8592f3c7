-- ===== src/Server/Pending/Flush.antt =====
-- What a flush of the pending accesses (src/server.rs) asks of the metadata store, whichever it is:
-- the store is watched, so that each `touch_blobs` is noted with its answer.
use mr_boxington_cache.Prelude.{
  ℕ, ◌+◌, ◌≤◌, ◌<◌, ◌≡◌, refl, sym, ap, subst, ◌∙◌, List, [], ◌∷◌, ◌++◌, map, append-nil,
  append_assoc, Result, ok, err, length, All, arith, Bool-cases, inl, inr, if◌then◌else◌,
}
use mr_boxington_cache.Prelude.Bytes.{Text}
use mr_boxington_cache.Prelude.Equality.{◌==◌, nat_eq, list_eq}
use mr_boxington_cache.Protocol.{Protocol, Digest}
use mr_boxington_cache.Server.Errors.{Fault}
use mr_boxington_cache.Metadata.{Access, MetadataStore}
use mr_boxington_cache.Server.Pending.{
  Pending, default, chunks, touch_chunks, touch_namespaces, flush,
}
use mr_boxington_cache.Server.Pending.Bounds.{joined, chunks-All}

-- A store's state, the batches it was asked to touch, in order, and how many of them failed.
pub record Watched (M : Type 0) : Type 0 where
  pub inner : M
  pub calls : List (Text × List Digest)
  pub failures : ℕ

abbrev pub watching : {M : Type 0} → M → Watched M
watching m = record { inner = m; calls = []; failures = 0 }

-- An operation that is not noted.
abbrev unnoted : {M A : Type 0} → Access M A → Access (Watched M) A
unnoted op w = ((op w.inner).0, record w { inner = (op w.inner).1 })

abbrev tally : Result Fault (Unit {0}) → ℕ → ℕ
tally r n = elim r [ ok _ ↦ n | err _ ↦ n + 1 ]

-- The store, watched.
abbrev pub watched : {M : Type 0} → MetadataStore M → MetadataStore (Watched M)
watched store = record {
  visible_blobs = λ n ds. unnoted (store.visible_blobs n ds);
  register_blob = λ n d stored. unnoted (store.register_blob n d stored);
  forget_blob = λ n d. unnoted (store.forget_blob n d);
  touch_blobs = λ n ds w.
      let (r, m) = store.touch_blobs n ds w.inner in
      (r, record { inner = m; calls = w.calls ++ ((n, ds) ∷ []); failures = tally r w.failures });
  get = λ n a. unnoted (store.get n a);
  get_batch = λ n actions. unnoted (store.get_batch n actions);
  commit = λ n a r. unnoted (store.commit n a r);
  get_manifest = λ n k. unnoted (store.get_manifest n k);
  commit_manifest =
      λ n k expected etag manifest. unnoted (store.commit_manifest n k expected etag manifest);
}

-- The digests of a namespace, over all its entries.
unfoldable pub digests_for : Text → List (Text × List Digest) → List Digest
digests_for namespace [] = []
digests_for namespace (e ∷ es) =
    let rest = digests_for namespace es in if e.0 == namespace then e.1 ++ rest else rest

tally-add :
    (r : Result Fault (Unit {0})) (a b c d : ℕ) → c + tally r b ≡ tally r a + d → c + b ≡ a + d
tally-add (ok u) a b c d h = h
tally-add (err e) a b c d h = omega (arith, h)

digests_for-append :
    (n : Text) (es es' : List (Text × List Digest))
    → digests_for n (es ++ es') ≡ (digests_for n es ++ digests_for n es')
unfolding digests_for
digests_for-append n [] es' = refl
digests_for-append n (e ∷ es) es' = elim (Bool-cases (e.0 == n)) [
  | inl same ↦
      rw (same, digests_for-append n es es')
        (sym (append_assoc e.1 (digests_for n es) (digests_for n es')))
  | inr other ↦ rw (other, digests_for-append n es es')
]

abbrev batch_calls : Text → List (List Digest) → List (Text × List Digest)
batch_calls n batches = map (λ b. (n, b)) batches

digests_for-batches :
    (n namespace : Text) (batches : List (List Digest))
    → digests_for n (batch_calls namespace batches)
      ≡ (if namespace == n then joined batches else [])
unfolding digests_for
digests_for-batches n namespace [] = elim (Bool-cases (namespace == n)) [
  | inl same ↦ rw same
  | inr other ↦ rw other
]
digests_for-batches n namespace (b ∷ batches) = elim (Bool-cases (namespace == n)) [
  | inl same ↦ rw (same, digests_for-batches n namespace batches, same)
  | inr other ↦ rw (other, digests_for-batches n namespace batches, other)
]

-- What becomes of the store that is watched, and of the one that is not.
record Touched {M : Type 0} (w : Watched M) (calls : List (Text × List Digest)) (failed : ℕ)
    (plain : ℕ × M) (after : ℕ × Watched M) : Type 0 where
  made : after.1.calls ≡ w.calls ++ calls
  tallied : after.0 + w.failures ≡ failed + after.1.failures
  same : plain ≡ (after.0, after.1.inner)

touch_chunks-Touched :
    {M : Type 0} (store : MetadataStore M) (n : Text) (batches : List (List Digest)) (failed : ℕ)
    (w : Watched M)
    → Touched w
        (batch_calls n batches)
        failed
        (touch_chunks store n batches failed w.inner)
        (touch_chunks (watched store) n batches failed w)
unfolding touch_chunks
touch_chunks-Touched store n [] failed w = record {
  made = sym (append-nil w.calls);
  tallied = refl;
  same = refl;
}
touch_chunks-Touched store n (b ∷ batches) failed w =
    let (r, w1) = (watched store).touch_blobs n b w in
    let rest = touch_chunks-Touched store n batches (tally r failed) w1 in
    record {
      made = rest.made ∙ append_assoc w.calls ((n, b) ∷ []) (batch_calls n batches);
      tallied = tally-add r failed w.failures _ _ rest.tallied;
      same = rest.same;
    }

-- The batches of all namespaces.
abbrev all_calls : Protocol → List (Text × List Digest) → List (Text × List Digest)
all_calls p [] = []
all_calls p ((n, digests) ∷ rest) =
    batch_calls n (chunks p.max_batch_items digests) ++ all_calls p rest

touch_namespaces-Touched :
    {M : Type 0} (p : Protocol) (store : MetadataStore M) (es : List (Text × List Digest))
    (failed : ℕ) (w : Watched M)
    → Touched w
        (all_calls p es)
        failed
        (touch_namespaces p store es failed w.inner)
        (touch_namespaces p (watched store) es failed w)
unfolding touch_namespaces
touch_namespaces-Touched p store [] failed w = record {
  made = sym (append-nil w.calls);
  tallied = refl;
  same = refl;
}
touch_namespaces-Touched p store ((n, digests) ∷ es) failed w =
    let batches = chunks p.max_batch_items digests in
    let mid = touch_chunks (watched store) n batches failed w in
    let first = touch_chunks-Touched store n batches failed w in
    let rest = touch_namespaces-Touched p store es mid.0 mid.1 in
    record {
      made =
          rest.made
          ∙ ap (λ l. l ++ all_calls p es) first.made
          ∙ append_assoc w.calls (batch_calls n batches) (all_calls p es);
      tallied = omega (arith, first.tallied, rest.tallied);
      same = ap (λ r. touch_namespaces p store es r.0 r.1) first.same ∙ rest.same;
    }

digests_for-all_calls :
    (p : Protocol) (n : Text) (es : List (Text × List Digest))
    → 0 < p.max_batch_items
    → digests_for n (all_calls p es) ≡ digests_for n es
unfolding digests_for
digests_for-all_calls p n [] h = refl
digests_for-all_calls p n ((m, digests) ∷ es) h =
    let batches = chunks p.max_batch_items digests in
    let split = digests_for-append n (batch_calls m batches) (all_calls p es) in
    let first = digests_for-batches n m batches in
    let rest = digests_for-all_calls p n es h in
    let whole = (chunks-All p.max_batch_items digests h).0 in
    elim (Bool-cases (m == n)) [
      | inl same ↦ split ∙ rw (first, same, whole, rest)
      | inr other ↦ split ∙ rw (first, other, rest)
    ]

-- A batch that is not empty, and within the batch limit.
abbrev pub IsBatch : Protocol → Text × List Digest → Type 0
IsBatch p call = (0 < length call.1) × (length call.1 ≤ p.max_batch_items)

All-batches :
    (p : Protocol) (n : Text) (batches : List (List Digest)) (es : List (Text × List Digest))
    → All (λ b. (0 < length b) × (length b ≤ p.max_batch_items)) batches
    → All (IsBatch p) es
    → All (IsBatch p) (batch_calls n batches ++ es)
All-batches p n [] es a all = all
All-batches p n (b ∷ batches) es a all = (a.0, All-batches p n batches es a.1 all)

all_calls-All :
    (p : Protocol) (es : List (Text × List Digest))
    → 0 < p.max_batch_items
    → All (IsBatch p) (all_calls p es)
all_calls-All p [] h = tt
all_calls-All p ((n, digests) ∷ es) h =
    All-batches p n (chunks p.max_batch_items digests) (all_calls p es)
      (chunks-All p.max_batch_items digests h).1 (all_calls-All p es h)

-- Where the batch limit is not 0, a flush, over any metadata store, leaves nothing pending, and asks
-- the store to touch batches that are none of them empty and none over the limit, and that are
-- together for each namespace its pending digests in their order; it goes on behind a batch that
-- fails, and counts those that do. The store is left as where it is not watched.
pub flush-watched :
    {M : Type 0} (p : Protocol) (store : MetadataStore M) (pending : Pending) (m : M)
    → 0 < p.max_batch_items
    → ((flush p (watched store) pending (watching m)).0 ≡ default)
      × ((n : Text)
          → digests_for n (flush p (watched store) pending (watching m)).1.1.calls
            ≡ digests_for n pending.namespaces)
      × All (IsBatch p) (flush p (watched store) pending (watching m)).1.1.calls
      × ((flush p (watched store) pending (watching m)).1.0
          ≡ (flush p (watched store) pending (watching m)).1.1.failures)
      × (flush p store pending m ≡ (
        default,
        (
          (flush p (watched store) pending (watching m)).1.0,
          (flush p (watched store) pending (watching m)).1.1.inner,
        ),
      ))
unfolding flush
flush-watched p store pending m h =
    let done = touch_namespaces-Touched p store pending.namespaces 0 (watching m) in
    (
      refl,
      λ n. ap (digests_for n) done.made ∙ digests_for-all_calls p n pending.namespaces h,
      subst (λ calls. All (IsBatch p) calls) (sym done.made) (all_calls-All p pending.namespaces h),
      omega (arith, done.tallied),
      ap (λ r. (default, r)) done.same,
    )
