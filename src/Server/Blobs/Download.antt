-- ===== src/Server/Blobs/Download.antt =====
-- What a served blob (src/server.rs) is.
use mr_boxington_cache.Prelude.{
  ℕ, ◌+◌, ◌≡◌, ap, ◌∙◌, true, false, none, some, Result, ok, Result-cases, arith, inl, inr,
}
use mr_boxington_cache.Prelude.Bytes.{Text}
use mr_boxington_cache.Protocol.{Digest}
use mr_boxington_cache.Metadata.{blob_visible}
use mr_boxington_cache.Auth.{Headers, read, authorize}
use mr_boxington_cache.Server.Errors.{ApiError}
use mr_boxington_cache.Server.Digests.{parse_digest}
use mr_boxington_cache.Server.Service.{AppState, Blob, Config}
use mr_boxington_cache.Server.Blobs.{requested, serve, serve_visible, get_blob}

module _ {M B S : Type 0} (c : Config M B S) where
  -- The blob may be read in the namespace, is visible there, and is what storage holds.
  pub record IsServed (headers : Headers) (algorithm hash : Text) (size : ℕ) (s s' : AppState M B S)
      (blob : Blob) : Type 0 where
    pub namespace : Text
    pub digest : Digest
    pub authorized : authorize c.tokens c.auth headers read ≡ ok namespace
    pub named : parse_digest c.protocol algorithm hash size ≡ ok digest
    pub visible : (blob_visible c.store namespace digest s.metadata).0 ≡ ok true
    pub held : (c.objects.get digest s.blobs).0 ≡ ok (some blob)
    pub counted : s'.blob_hits ≡ s.blob_hits + 1

  served :
      (namespace : Text) (digest : Digest) (s : AppState M B S) (blob : Blob)
      → (serve c namespace digest s).0 ≡ ok blob
      → ((c.objects.get digest s.blobs).0 ≡ ok (some blob))
        × ((serve c namespace digest s).1.blob_hits ≡ s.blob_hits + 1)
  unfolding serve
  served namespace digest s blob e = elim (Result-cases (c.objects.get digest s.blobs).0) [
    | inr (x, failed) ↦ absurd (cc (rw (serve, failed) at e))
    | inl (none, lost) ↦ absurd (cc (rw (serve, lost) at e))
    | inl (some found, held) ↦
        (held ∙ ap (λ b. ok (some b)) (ok_of found blob (rw (serve, held) at e)), rw (serve, held))
  ]
    where
      ok_of : (a b : Blob) → ◌≡◌ {A = Result ApiError Blob} (ok a) (ok b) → a ≡ b
      ok_of a b h = ground (arith, h)

  served_visible :
      (namespace : Text) (digest : Digest) (s : AppState M B S) (blob : Blob)
      → (serve_visible c namespace digest s).0 ≡ ok blob
      → ((blob_visible c.store namespace digest s.metadata).0 ≡ ok true)
        × (serve_visible c namespace digest s
            ≡ serve c namespace digest
                (record s { metadata = (blob_visible c.store namespace digest s.metadata).1 }))
  unfolding serve_visible
  served_visible namespace digest s blob e =
      elim (Result-cases (blob_visible c.store namespace digest s.metadata).0) [
        | inr (x, failed) ↦ absurd (cc (rw (serve_visible, failed) at e))
        | inl (false, hidden) ↦ absurd (cc (rw (serve_visible, hidden) at e))
        | inl (true, seen) ↦ (seen, rw (serve_visible, seen))
      ]

  -- A blob is served only to a request that may read the namespace, only where it is visible in
  -- that namespace, and as storage holds it; the hit is counted once.
  pub get_blob-IsServed :
      (headers : Headers) (algorithm hash : Text) (size : ℕ) (s : AppState M B S) (blob : Blob)
      → (get_blob c headers algorithm hash size s).0 ≡ ok blob
      → IsServed headers algorithm hash size s (get_blob c headers algorithm hash size s).1 blob
  unfolding get_blob requested
  get_blob-IsServed headers algorithm hash size s blob e =
      elim (Result-cases (authorize c.tokens c.auth headers read)) [
        | inr (x, refused) ↦ absurd (cc (rw (get_blob, requested, refused) at e))
        | inl (namespace, authorized) ↦
            elim (Result-cases (parse_digest c.protocol algorithm hash size)) [
              | inr (x, bad) ↦ absurd (cc (rw (get_blob, requested, authorized, bad) at e))
              | inl (digest, named) ↦
                  let e' = rw (get_blob, requested, authorized, named) at e in
                  let (visible, same) = served_visible namespace digest s blob e' in
                  let (held, counted) =
                    served namespace digest
                      (record s { metadata = (blob_visible c.store namespace digest s.metadata).1 })
                      blob (rw same at e') in
                  rw (get_blob, requested, authorized, named)
                    (record {
                      namespace = namespace;
                      digest = digest;
                      authorized = authorized;
                      named = named;
                      visible = visible;
                      held = held;
                      counted = rw same counted;
                    })
            ]
      ]
