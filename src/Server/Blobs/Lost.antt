-- ===== src/Server/Blobs/Lost.antt =====
-- What becomes of a blob that storage has lost, over the store in memory: `get_blob` and then
-- `missing_blobs` of src/server.rs.
use mr_boxington_cache.Prelude.{
  ℕ, ◌≡◌, refl, sym, ap, subst, ◌∙◌, false, not, ◌&&◌, List, none, ok, err, arith, keep, ok_inj,
  Bool-cases, inl, inr, if◌then◌else◌,
}
use mr_boxington_cache.Prelude.Bytes.{Text, text}
use mr_boxington_cache.Prelude.Equality.{
  ◌==◌, nat_eq, list_eq, eq_iff, eq_refl, contains, contains-remove,
}
use mr_boxington_cache.Protocol.{Digest, Key, digest_eq, key_eq}
use mr_boxington_cache.Metadata.{◌>>=◌, blob_visible}
use mr_boxington_cache.Metadata.Memory.{
  Json, MemoryMetadata, memory_store, visible_blobs, forget_blob,
}
use mr_boxington_cache.Auth.{Headers, read, authorize}
use mr_boxington_cache.Server.Errors.{not_found}
use mr_boxington_cache.Server.Digests.{parse_digest}
use mr_boxington_cache.Server.Service.{AppState, Config}
use mr_boxington_cache.Server.Blobs.{serve, serve_visible, requested, get_blob, forget_missing_blob}
use mr_boxington_cache.Server.Lookups.{asked, missing_blobs}
use mr_boxington_cache.Server.Lookups.Missing.{in_memory, missing_blobs-contains}

-- In memory a blob is visible where it is registered.
visible-memory :
    (j : Json) (namespace : Text) (digest : Digest) (m : MemoryMetadata)
    → blob_visible (memory_store j) namespace digest m
      ≡ (ok (contains m.blobs (namespace, digest)), m)
unfolding blob_visible ◌>>=◌ visible_blobs
visible-memory j namespace digest m = elim (Bool-cases (contains m.blobs (namespace, digest))) [
  | inl seen ↦ rw seen
  | inr hidden ↦ rw hidden
]

-- The keys are as they were, but for one that is not among them.
unfoldable pub Forgotten : Key → MemoryMetadata → MemoryMetadata → Type 0
Forgotten key m m' =
    (other : Key)
    → contains m'.blobs other ≡ (if key == other then false else contains m.blobs other)

Forgotten-forget_blob :
    (namespace : Text) (digest : Digest) (m : MemoryMetadata)
    → Forgotten (namespace, digest) m (forget_blob namespace digest m).1
unfolding Forgotten forget_blob
Forgotten-forget_blob namespace digest m other = contains-remove m.blobs (namespace, digest) other

Forgotten-hidden :
    (key : Key) (m : MemoryMetadata) → contains m.blobs key ≡ false → Forgotten key m m
unfolding Forgotten
Forgotten-hidden key m hidden other = elim (Bool-cases (key == other)) [
  | inl same ↦ rw (same, sym ((eq_iff key other).0 same)) hidden
  | inr differs ↦ rw differs
]

module _ {B S : Type 0} (j : Json) (c : Config MemoryMetadata B S) where
  lost_blob :
      (namespace : Text) (digest : Digest) (s : AppState MemoryMetadata B S)
      → (c.objects.get digest s.blobs).0 ≡ ok none
      → ((serve_visible (in_memory j c) namespace digest s).0
          ≡ err (not_found (text "blob not found")))
        × Forgotten
            (namespace, digest)
            s.metadata
            (serve_visible (in_memory j c) namespace digest s).1.metadata
  unfolding serve_visible serve forget_missing_blob
  lost_blob namespace digest s lost =
      let state = ap (λ r. r.1) (visible-memory j namespace digest s.metadata) in
      elim (Bool-cases (contains s.metadata.blobs (namespace, digest))) [
        | inl seen ↦
            rw (serve_visible, visible-memory j namespace digest s.metadata, seen, serve, lost)
              (
                refl,
                subst
                    (λ m.
                      Forgotten (namespace, digest) s.metadata (forget_blob namespace digest m).1)
                    (sym state) (Forgotten-forget_blob namespace digest s.metadata),
              )
        | inr hidden ↦
            rw (serve_visible, visible-memory j namespace digest s.metadata, hidden)
              (
                refl,
                subst (λ m. Forgotten (namespace, digest) s.metadata m) (sym state)
                    (Forgotten-hidden (namespace, digest) s.metadata hidden),
              )
      ]

  -- A request that was let through is answered.
  missing_blobs-asked :
      (headers : Headers) (digests : List Digest) (s : AppState MemoryMetadata B S)
      (namespace : Text)
      → asked (in_memory j c) headers digests ≡ ok namespace
      → (missing : List Digest) × ((missing_blobs (in_memory j c) headers digests s).0 ≡ ok missing)
        × ((d : Digest)
            → contains missing d
              ≡ (contains digests d && not (contains s.metadata.blobs (namespace, d))))
  unfolding missing_blobs visible_blobs
  missing_blobs-asked headers digests s namespace may =
      let missing =
        keep
          (λ digest.
            not (contains (keep (λ x. contains s.metadata.blobs (namespace, x)) digests) digest))
          digests in
      let is : (missing_blobs (in_memory j c) headers digests s).0 ≡ ok missing =
        rw (missing_blobs, may) in
      let (asked_for, allowed, contained) =
        missing_blobs-contains j c headers digests missing s is in
      let same : asked_for ≡ namespace = ok_inj (sym allowed ∙ may) in
      (
        missing,
        is,
        subst
            (λ n.
              (d : Digest)
              → contains missing d ≡ (contains digests d && not (contains s.metadata.blobs (n, d))))
            same contained,
      )

  -- Over the store in memory, a request that may read a namespace, and that names by a valid digest
  -- a blob which storage answers that it does not hold, is answered 404, whether the blob is visible
  -- or not. From there the blob's key, and no other, is registered no more; and a question for
  -- missing blobs that is let through for the namespace is answered, and names the blob as missing
  -- exactly where it asks for it.
  pub get_blob-missing_blobs :
      (headers headers' : Headers) (algorithm hash : Text) (size : ℕ)
      (s : AppState MemoryMetadata B S) (namespace : Text) (digest : Digest) (digests : List Digest)
      → authorize c.tokens c.auth headers read ≡ ok namespace
      → parse_digest c.protocol algorithm hash size ≡ ok digest
      → (c.objects.get digest s.blobs).0 ≡ ok none
      → asked (in_memory j c) headers' digests ≡ ok namespace
      → ((get_blob (in_memory j c) headers algorithm hash size s).0
          ≡ err (not_found (text "blob not found")))
        × Forgotten
            (namespace, digest)
            s.metadata
            (get_blob (in_memory j c) headers algorithm hash size s).1.metadata
        × (missing : List Digest) × ((missing_blobs
              (in_memory j c)
              headers'
              digests
              (get_blob (in_memory j c) headers algorithm hash size s).1).0
            ≡ ok missing)
        × (contains missing digest ≡ contains digests digest)
  unfolding get_blob requested Forgotten
  get_blob-missing_blobs headers headers' algorithm hash size s namespace digest digests authorized
        named lost may =
      let done : get_blob (in_memory j c) headers algorithm hash size s
          ≡ serve_visible (in_memory j c) namespace digest s =
        rw (get_blob, requested, authorized, named) in
      let (answer, forgotten) = lost_blob namespace digest s lost in
      let s' = (serve_visible (in_memory j c) namespace digest s).1 in
      let (missing, is, contained) = missing_blobs-asked headers' digests s' namespace may in
      let gone : contains s'.metadata.blobs (namespace, digest) ≡ false =
        forgotten (namespace, digest) ∙ rw (eq_refl {A = Key} (namespace, digest)) in
      rw done (answer, forgotten, missing, is, ground (arith, contained digest, gone))
