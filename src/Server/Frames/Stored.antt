-- ===== src/Server/Frames/Stored.antt =====
-- What a frame that was verified is (src/server.rs).
use mr_boxington_cache.Prelude.{
  ℕ, ◌+◌, ◌%◌, ◌≡◌, refl, sym, ap, subst, ◌∙◌, Bool, true, false, ◌&&◌, List, [], ◌∷◌, ◌++◌,
  append_assoc, Result, ok, ◌>>=◌, ensure, >>=-eq-ok, length, length-append, nat_beq, and_parts,
  ok_inj, err_not_ok, arith, append-nil,
}
use mr_boxington_cache.Prelude.Bytes.{Text}
use mr_boxington_cache.Prelude.Equality.{◌==◌, eq_iff, nat_eq, list_eq}
use mr_boxington_cache.Protocol.{Digest, Algorithm, blake3, sha256, u64_mod}
use mr_boxington_cache.Server.Errors.{ApiError, bad_request, internal}
use mr_boxington_cache.Server.Digests.{map_err, map_err-eq-ok}
use mr_boxington_cache.Server.Service.{AppState, Config}
use mr_boxington_cache.Server.Blobs.{Hashers, update, fed}
use mr_boxington_cache.Server.Handler.{on_blobs, on_metadata, continue-eq-ok}
use mr_boxington_cache.Metadata.{PutOutcome}
use mr_boxington_cache.Server.Frames.{PackFrame, new, write, verify, store}
use mr_boxington_cache.Pack.Chunks.{concat}

-- The frame holds these bytes, whatever its algorithm.
unfoldable pub Holds : Algorithm → Digest → List ℕ → PackFrame → Type 0
Holds kind digest bytes frame =
    (frame.digest ≡ digest)
    × (frame.file ≡ bytes)
    × (fed kind frame.hashers ≡ bytes)
    × (frame.size ≡ length bytes % u64_mod)

fed-update :
    (kind : Algorithm) (chunk : List ℕ) (h : Hashers)
    → fed kind (update kind chunk h) ≡ fed kind h ++ chunk
unfolding fed update
fed-update blake3 chunk h = refl
fed-update sha256 chunk h = refl

ensured : {E : Type 0} (b : Bool) (e : E) → ensure b e ≡ ok tt → b ≡ true
ensured true e h = refl
ensured false e h = absurd (err_not_ok h)

equal : (a b : ℕ) → nat_beq a b ≡ true → a ≡ b
equal a b h = ground (arith, h)

module _ {M B S : Type 0} (c : Config M B S) (kind : Algorithm) (digest : Digest) where
  -- The payloads of a frame, one after the other.
  unfoldable pub write_all : PackFrame → List (List ℕ) → Result ApiError PackFrame
  unfolding write
  write_all frame [] = ok frame
  write_all frame (payload ∷ payloads) =
      write c frame payload >>= λ frame'. write_all frame' payloads

  nothing_fed : (k : Algorithm) → fed k (record { fed_blake3 = []; fed_sha256 = [] }) ≡ []
  unfolding fed
  nothing_fed blake3 = refl
  nothing_fed sha256 = refl

  new-Holds : (frame : PackFrame) → new c digest ≡ ok frame → Holds kind digest [] frame
  unfolding new Holds fed
  new-Holds frame e =
      let (u, made, e1) = >>=-eq-ok (map_err internal c.disk.create) _ e in
      subst (λ f. Holds kind digest [] f) (ok_inj e1) (refl, refl, nothing_fed kind, refl)

  write-Holds :
      (frame frame' : PackFrame) (bytes payload : List ℕ)
      → c.protocol.algorithm_kind digest.algorithm ≡ ok kind
      → Holds kind digest bytes frame
      → write c frame payload ≡ ok frame'
      → Holds kind digest (bytes ++ payload) frame'
  unfolding write Holds
  write-Holds frame frame' bytes payload of_kind (same, file, hashed, size) e =
      let (k, read, e1) =
        >>=-eq-ok (map_err bad_request (c.protocol.algorithm_kind frame.digest.algorithm)) _ e in
      let (u, written, e2) = >>=-eq-ok (map_err internal (c.disk.write frame.file payload)) _ e1 in
      let same_kind : kind ≡ k = ok_inj (
        sym of_kind
        ∙ ap (λ (d : Digest). c.protocol.algorithm_kind d.algorithm) (sym same)
        ∙ map_err-eq-ok bad_request (c.protocol.algorithm_kind frame.digest.algorithm) k read) in
      subst (λ f. Holds kind digest (bytes ++ payload) f) (ok_inj e2)
        (
          same,
          ap (λ t. t ++ payload) file,
          ap (λ a. fed kind (update a payload frame.hashers)) (sym same_kind)
              ∙ fed-update kind payload frame.hashers
              ∙ ap (λ t. t ++ payload) hashed,
          omega (arith, size, length-append bytes payload),
        )

  write_all-Holds :
      (payloads : List (List ℕ)) (frame frame' : PackFrame) (bytes : List ℕ)
      → c.protocol.algorithm_kind digest.algorithm ≡ ok kind
      → Holds kind digest bytes frame
      → write_all frame payloads ≡ ok frame'
      → Holds kind digest (bytes ++ concat payloads) frame'
  unfolding write_all
  write_all-Holds [] frame frame' bytes of_kind h e =
      rw (append-nil bytes) (subst (λ f. Holds kind digest bytes f) (ok_inj e) h)
  write_all-Holds (payload ∷ payloads) frame frame' bytes of_kind h e =
      let (frame1, first, rest) = >>=-eq-ok (write c frame payload) (λ f. write_all f payloads) e in
      subst (λ b. Holds kind digest b frame') (append_assoc bytes payload (concat payloads))
        (write_all-Holds payloads frame1 frame' (bytes ++ payload) of_kind
          (write-Holds frame frame1 bytes payload of_kind h first) rest)

  -- What a verified frame has shown.
  verify-Holds :
      (frame : PackFrame) (bytes : List ℕ)
      → c.protocol.algorithm_kind digest.algorithm ≡ ok kind
      → Holds kind digest bytes frame
      → verify c frame ≡ ok tt
      → (length bytes % u64_mod ≡ digest.size)
        × (c.protocol.hex_encode (c.hash kind bytes) ≡ digest.hash)
  unfolding verify Holds
  verify-Holds frame bytes of_kind (same, file, hashed, size) e =
      let (u, flushed, e1) = >>=-eq-ok (map_err internal (c.disk.flush frame.file)) _ e in
      let (k, read, e2) =
        >>=-eq-ok (map_err bad_request (c.protocol.algorithm_kind frame.digest.algorithm)) _ e1 in
      let same_kind : k ≡ kind = ok_inj (
        sym (map_err-eq-ok bad_request (c.protocol.algorithm_kind frame.digest.algorithm) k read)
        ∙ ap (λ (d : Digest). c.protocol.algorithm_kind d.algorithm) same
        ∙ of_kind) in
      let test : (nat_beq frame.size frame.digest.size
            && c.protocol.hex_encode (c.hash k (fed k frame.hashers)) == frame.digest.hash)
          ≡ true =
        ensured _ _ e2 in
      let (sizes, hashes) = and_parts _ _ test in
      (
        sym size ∙ equal frame.size frame.digest.size sizes ∙ ap (λ (d : Digest). d.size) same,
        ap (λ t. c.protocol.hex_encode (c.hash kind t)) (sym hashed)
            ∙ ap (λ a. c.protocol.hex_encode (c.hash a (fed a frame.hashers))) (sym same_kind)
            ∙ (eq_iff (c.protocol.hex_encode (c.hash k (fed k frame.hashers))) frame.digest.hash).0
                hashes
            ∙ ap (λ (d : Digest). d.hash) same,
      )

uploaded :
    {M B S : Type 0}
    → Config M B S
    → Text
    → PackFrame
    → PutOutcome
    → AppState M B S
    → AppState M B S
uploaded c namespace frame outcome t = record t {
  metadata = (c.store.register_blob namespace frame.digest outcome t.metadata).1;
  blob_uploads = t.blob_uploads + 1;
}

store-ok :
    {M B S : Type 0} (c : Config M B S) (namespace : Text) (frame : PackFrame)
    (s s' : AppState M B S) (outcome : PutOutcome)
    → store c namespace frame s ≡ (ok outcome, s')
    → ((c.objects.put frame.digest frame.file s.blobs).0 ≡ ok outcome)
      × ((c.store.register_blob namespace frame.digest outcome s.metadata).0 ≡ ok tt)
      × (s' ≡ record s {
        blobs = (c.objects.put frame.digest frame.file s.blobs).1;
        metadata = (c.store.register_blob namespace frame.digest outcome s.metadata).1;
        blob_uploads = s.blob_uploads + 1;
      })
unfolding store uploaded
store-ok {M} {B} {S} c namespace frame s s' outcome e =
    let (o, s1, put, r1) =
      continue-eq-ok _ (on_blobs (c.objects.put frame.digest frame.file) s) e in
    let (u, s2, registered, r2) =
      continue-eq-ok _ (on_metadata (c.store.register_blob namespace frame.digest o) s1) r1 in
    let same : o ≡ outcome = ok_inj (ap (λ r. r.0) r2) in
    let after_put : s1 ≡ record s { blobs = (c.objects.put frame.digest frame.file s.blobs).1 } =
      sym (ap (λ r. r.1) put) in
    let held : s1.metadata ≡ s.metadata = ap (λ (t : AppState M B S). t.metadata) after_put in
    let register = c.store.register_blob namespace frame.digest in
    (
      map_err-eq-ok internal (c.objects.put frame.digest frame.file s.blobs).0 o (ap (λ r. r.0) put)
          ∙ ap (λ a. ok a) same,
      ap (λ a. (register a s.metadata).0) (sym same)
          ∙ ap (λ m. (register o m).0) (sym held)
          ∙ map_err-eq-ok internal (register o s1.metadata).0 u (ap (λ r. r.0) registered),
      sym (ap (λ r. r.1) r2)
          ∙ ap {A = AppState M B S}
              (λ (t : AppState M B S). record t { blob_uploads = t.blob_uploads + 1 })
              (sym (ap (λ r. r.1) registered))
          ∙ ap (λ t. uploaded c namespace frame o t) after_put
          ∙ ap
              (λ a.
                uploaded c namespace frame a
                  (record s { blobs = (c.objects.put frame.digest frame.file s.blobs).1 }))
              same,
    )

-- A frame that is begun, takes its payloads in whatever pieces, passes its check and is stored, was
-- what its header declared: the payloads together have the hash of its digest, and its size up to
-- the wrap-around of the counter. Exactly they were put into storage under the digest, and the blob
-- was registered for the namespace.
pub store_declared :
    {M B S : Type 0} (c : Config M B S) (namespace : Text) (digest : Digest) (kind : Algorithm)
    (payloads : List (List ℕ)) (begun frame : PackFrame) (s s' : AppState M B S)
    (outcome : PutOutcome)
    → c.protocol.algorithm_kind digest.algorithm ≡ ok kind
    → new c digest ≡ ok begun
    → write_all c kind digest begun payloads ≡ ok frame
    → verify c frame ≡ ok tt
    → store c namespace frame s ≡ (ok outcome, s')
    → (length (concat payloads) % u64_mod ≡ digest.size)
      × (c.protocol.hex_encode (c.hash kind (concat payloads)) ≡ digest.hash)
      × ((c.objects.put digest (concat payloads) s.blobs).0 ≡ ok outcome)
      × ((c.store.register_blob namespace digest outcome s.metadata).0 ≡ ok tt)
      × (s' ≡ record s {
        blobs = (c.objects.put digest (concat payloads) s.blobs).1;
        metadata = (c.store.register_blob namespace digest outcome s.metadata).1;
        blob_uploads = s.blob_uploads + 1;
      })
unfolding Holds
store_declared c namespace digest kind payloads begun frame s s' outcome of_kind made written good
      stored =
    let h =
      write_all-Holds c kind digest payloads begun frame [] of_kind
        (new-Holds c kind digest begun made) written in
    let (size, hash) = verify-Holds c kind digest frame (concat payloads) of_kind h good in
    let (put, registered, left) =
      rw (h.0, h.1) at (store-ok c namespace frame s s' outcome stored) in
    (size, hash, put, registered, left)
