-- ===== src/Server/Lookups/Missing.antt =====
-- What the answer to a question for missing blobs (src/server.rs) says of the store in memory.
use mr_boxington_cache.Prelude.{
  ◌≡◌, refl, ap, Bool, not, ◌&&◌, List, [], ◌∷◌, Result, ok, keep, arith, Result-cases, inl, inr,
  Bool-cases,
}
use mr_boxington_cache.Prelude.Bytes.{Text}
use mr_boxington_cache.Prelude.Equality.{Eq, ◌==◌, contains}
use mr_boxington_cache.Protocol.{Digest, digest_eq, key_eq}
use mr_boxington_cache.Metadata.Memory.{Json, MemoryMetadata, memory_store, visible_blobs}
use mr_boxington_cache.Auth.{Headers}
use mr_boxington_cache.Server.Service.{AppState, Config}
use mr_boxington_cache.Server.Lookups.{asked, missing_blobs}

contains-keep :
    {A : Type 0} ⦃e : Eq A⦄ (test : A → Bool) (xs : List A) (a : A)
    → contains (keep test xs) a ≡ (contains xs a && test a)
contains-keep test [] a = refl
contains-keep ⦃e⦄ test (x ∷ xs) a = elim (Bool-cases (a == x)) [
  | inl same ↦ ground (arith, same, ap test ((e.beq_iff a x).0 same), contains-keep test xs a)
  | inr other ↦ ground (arith, other, contains-keep test xs a)
]

ok_inj : {E A : Type 0} {a b : A} → ◌≡◌ {A = Result E A} (ok a) (ok b) → a ≡ b
ok_inj e = ground (arith, e)

-- The service with the store in memory.
abbrev pub in_memory : {B S : Type 0} → Json → Config MemoryMetadata B S → Config MemoryMetadata B S
in_memory j c = record c { store = memory_store j }

module _ {B S : Type 0} (j : Json) (c : Config MemoryMetadata B S) where
  answered :
      (namespace : Text) (digests missing : List Digest) (s : AppState MemoryMetadata B S)
      (d : Digest)
      → keep
          (λ digest.
            not (contains (keep (λ x. contains s.metadata.blobs (namespace, x)) digests) digest))
          digests
        ≡ missing
      → contains missing d ≡ (contains digests d && not (contains s.metadata.blobs (namespace, d)))
  answered namespace digests missing s d is =
      let held = λ (x : Digest). contains s.metadata.blobs (namespace, x) in
      let inner = contains-keep held digests d in
      let outer = contains-keep (λ (x : Digest). not (contains (keep held digests) x)) digests d in
      ground (arith, ap (λ l. contains l d) is, inner, outer)

  -- Over the store in memory, a digest is answered as missing exactly when the request names it and
  -- it is not registered for the namespace that the request may read.
  pub missing_blobs-contains :
      (headers : Headers) (digests missing : List Digest) (s : AppState MemoryMetadata B S)
      → (missing_blobs (in_memory j c) headers digests s).0 ≡ ok missing
      → (namespace : Text) × (asked (in_memory j c) headers digests ≡ ok namespace)
        × ((d : Digest)
            → contains missing d
              ≡ (contains digests d && not (contains s.metadata.blobs (namespace, d))))
  unfolding missing_blobs visible_blobs
  missing_blobs-contains headers digests missing s e =
      elim (Result-cases (asked (in_memory j c) headers digests)) [
        | inr (x, refused) ↦ absurd (cc (rw (missing_blobs, refused) at e))
        | inl (namespace, may) ↦ (
          namespace,
          may,
          λ d. answered namespace digests missing s d (ok_inj (rw (missing_blobs, may) at e)),
        )
      ]
