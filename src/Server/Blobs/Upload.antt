-- ===== src/Server/Blobs/Upload.antt =====
-- What a successful upload of one blob (src/server.rs) has stored.
use mr_boxington_cache.Prelude.{
  ℕ, ◌+◌, ◌≤◌, ◌≡◌, sym, ap, subst, ◌∙◌, ◌&&◌, List, ◌++◌, Option, some, ok, >>=-eq-ok,
  Result-cases, ensure, length, nat_beq, nat_beq_iff, leb, leb→le, arith, and_parts, inl, inr,
}
use mr_boxington_cache.Prelude.Bytes.{Text}
use mr_boxington_cache.Prelude.Equality.{◌==◌, nat_eq, list_eq, eq_iff}
use mr_boxington_cache.Protocol.{Protocol, Digest, Algorithm}
use mr_boxington_cache.Metadata.{PutOutcome}
use mr_boxington_cache.Auth.{Headers, write, authorize}
use mr_boxington_cache.Server.Errors.{bad_request, internal}
use mr_boxington_cache.Server.Digests.{map_err, parse_digest, validate_digest}
use mr_boxington_cache.Server.Preconditions.{require_immutable_precondition}
use mr_boxington_cache.Server.Spool
use mr_boxington_cache.Server.Service.{AppState, Config}
use mr_boxington_cache.Server.Blobs.{
  Body, fed, nothing_received, receive, verified, admitted, store_blob, upload, put_blob,
  put_status,
}
use mr_boxington_cache.Server.Blobs.Receiving.{
  delivered, ok_inj, ensured, map_err-eq-ok, fed-nothing, body_received,
}

parsed :
    (p : Protocol) (algorithm hash : Text) (size : ℕ) (d : Digest)
    → parse_digest p algorithm hash size ≡ ok d
    → d ≡ record { algorithm = algorithm; hash = hash; size = size }
unfolding parse_digest
parsed p algorithm hash size d e =
    let (u, h, e') =
      >>=-eq-ok (validate_digest p (record { algorithm = algorithm; hash = hash; size = size })) _
        e in
    sym (ok_inj e')

module _ {M B S : Type 0} (c : Config M B S) where
  -- The content of a spool file that was found to be what its digest says.
  pub record IsVerified (digest : Digest) (body : Body) (content : List ℕ) : Type 0 where
    pub kind : Algorithm
    pub came : delivered body ≡ some content
    pub is_kind : c.protocol.algorithm_kind digest.algorithm ≡ ok kind
    pub sized : length content ≡ digest.size
    pub hashed : c.protocol.hex_encode (c.hash kind content) ≡ digest.hash

  verified-IsVerified :
      (digest : Digest) (body : Body) (file : List ℕ)
      → verified c digest body ≡ ok file
      → IsVerified digest body file
  unfolding verified
  verified-IsVerified digest body file e =
      let (u1, h1, e1) = >>=-eq-ok (map_err internal c.disk.create) _ e in
      let (r, h2, e2) = >>=-eq-ok (receive c digest body nothing_received) _ e1 in
      let (u3, h3, e3) = >>=-eq-ok (map_err internal (c.disk.flush r.file)) _ e2 in
      let (kind, h4, e4) =
        >>=-eq-ok (map_err bad_request (c.protocol.algorithm_kind digest.algorithm)) _ e3 in
      let (u5, h5, e5) =
        >>=-eq-ok
          (ensure
            (nat_beq r.size digest.size
              && c.protocol.hex_encode (c.hash kind (fed kind r.hashers)) == digest.hash)
            _)
          _ e4 in
      let k = map_err-eq-ok _ _ kind h4 in
      let (content, came, all) = body_received c digest kind body nothing_received r k h2 in
      let tests = and_parts _ _ (ensured _ _ u5 h5) in
      let matches : c.protocol.hex_encode (c.hash kind (fed kind r.hashers)) ≡ digest.hash =
        (eq_iff (c.protocol.hex_encode (c.hash kind (fed kind r.hashers))) digest.hash).0 tests.1 in
      let at_content : IsVerified digest body content = record {
        kind = kind;
        came = came;
        is_kind = k;
        sized = omega (arith, all.size, (nat_beq_iff r.size digest.size).0 tests.0);
        hashed =
            ap (λ b. c.protocol.hex_encode (c.hash kind b))
              (sym (all.hashed ∙ ap (λ b. b ++ content) (fed-nothing kind)))
            ∙ matches;
      } in
      subst (λ x. IsVerified digest body x) (sym all.file ∙ ok_inj e5) at_content

  -- An upload that is answered with a status of success was authorized to write and declared that
  -- it creates only; its body arrived whole, has the declared size and hashes to the declared hash;
  -- and just that body was put into storage, and the blob registered for the namespace.
  pub record IsStored (headers : Headers) (digest : Digest) (body : Body) (s s' : AppState M B S)
      (status : ℕ) : Type 0 where
    pub namespace : Text
    pub content : List ℕ
    pub outcome : PutOutcome
    pub authorized : authorize c.tokens c.auth headers write ≡ ok namespace
    pub immutable : require_immutable_precondition headers ≡ ok tt
    pub limited : digest.size ≤ c.max_blob_bytes
    pub is_verified : IsVerified digest body content
    pub put : c.objects.put digest content s.blobs ≡ (ok outcome, s'.blobs)
    pub registered :
        c.store.register_blob namespace digest outcome s.metadata ≡ (ok tt, s'.metadata)
    pub answered : status ≡ put_status c outcome

  both_stored :
      (namespace : Text) (digest : Digest) (file : List ℕ) (s : AppState M B S)
      (outcome : PutOutcome)
      → (c.objects.put digest file s.blobs).0 ≡ ok outcome
      → (c.store.register_blob namespace digest outcome s.metadata).0 ≡ ok tt
      → store_blob c namespace digest file s ≡ (
        ok (put_status c outcome),
        record s {
          blobs = (c.objects.put digest file s.blobs).1;
          metadata = (c.store.register_blob namespace digest outcome s.metadata).1;
          blob_uploads = s.blob_uploads + 1;
        },
      )
  unfolding store_blob
  both_stored namespace digest file s outcome put registered = rw (store_blob, put, registered)

  stored_blob :
      (namespace : Text) (digest : Digest) (file : List ℕ) (s : AppState M B S) (status : ℕ)
      → (store_blob c namespace digest file s).0 ≡ ok status
      → (outcome : PutOutcome) × (c.objects.put digest file s.blobs
          ≡ (ok outcome, (store_blob c namespace digest file s).1.blobs))
        × (c.store.register_blob namespace digest outcome s.metadata
            ≡ (ok tt, (store_blob c namespace digest file s).1.metadata))
        × (status ≡ put_status c outcome)
  unfolding store_blob
  stored_blob namespace digest file s status e =
      elim (Result-cases (c.objects.put digest file s.blobs).0) [
        | inr (x, failed) ↦ absurd (cc (rw (store_blob, failed) at e))
        | inl (outcome, put) ↦
            elim (Result-cases (c.store.register_blob namespace digest outcome s.metadata).0) [
              | inr (x, failed) ↦ absurd (cc (rw (store_blob, put, failed) at e))
              | inl (u, registered) ↦
                  let done = both_stored namespace digest file s outcome put registered in
                  (
                    outcome,
                    rw done (ap (λ r. (r, (c.objects.put digest file s.blobs).1)) put),
                    rw done (
                        ap (λ r. (r, (c.store.register_blob namespace digest outcome s.metadata).1))
                          registered),
                    sym (ok_inj (rw done at e)),
                  )
            ]
      ]

  uploaded_blob :
      (namespace : Text) (digest : Digest) (body : Body) (s : AppState M B S) (status : ℕ)
      → (upload c namespace digest body s).0 ≡ ok status
      → (content : List ℕ) × (IsVerified digest body content)
        × (upload c namespace digest body s ≡ store_blob c namespace digest content s)
  unfolding upload
  uploaded_blob namespace digest body s status e = elim (Result-cases (verified c digest body)) [
    | inr (x, failed) ↦ absurd (cc (rw (upload, failed) at e))
    | inl (content, found) ↦
        (content, verified-IsVerified digest body content found, rw (upload, found))
  ]

  admission :
      (headers : Headers) (algorithm hash : Text) (size : ℕ) (namespace : Text) (digest : Digest)
      → admitted c headers algorithm hash size ≡ ok (namespace, digest)
      → (authorize c.tokens c.auth headers write ≡ ok namespace)
        × (require_immutable_precondition headers ≡ ok tt)
        × (digest ≡ record { algorithm = algorithm; hash = hash; size = size })
        × (digest.size ≤ c.max_blob_bytes)
  unfolding admitted
  admission headers algorithm hash size namespace digest e =
      let (n, h1, e1) = >>=-eq-ok (authorize c.tokens c.auth headers write) _ e in
      let (u, h2, e2) = >>=-eq-ok (require_immutable_precondition headers) _ e1 in
      let (d, h3, e3) = >>=-eq-ok (parse_digest c.protocol algorithm hash size) _ e2 in
      let (u4, h4, e4) = >>=-eq-ok (ensure (leb d.size c.max_blob_bytes) _) _ e3 in
      let is = ok_inj e4 in
      let is_digest = ap (λ (x : Text × Digest). x.1) is in
      (
        rw (ap (λ (x : Text × Digest). x.0) is) at h1,
        h2,
        sym is_digest ∙ parsed c.protocol algorithm hash size d h3,
        rw is_digest at (leb→le d.size c.max_blob_bytes (ensured _ _ u4 h4)),
      )

  -- The state in which the upload has its room.
  abbrev reserved : Digest → AppState M B S → AppState M B S
  reserved digest s = record s { spool = (Spool.reserve c.semaphores digest.size s.spool).1 }

  uploaded :
      (headers : Headers) (algorithm hash : Text) (size : ℕ) (body : Body) (s : AppState M B S)
      (namespace : Text) (digest : Digest) (permit : Option ℕ)
      → admitted c headers algorithm hash size ≡ ok (namespace, digest)
      → (Spool.reserve c.semaphores digest.size s.spool).0 ≡ ok permit
      → put_blob c headers algorithm hash size body s ≡ (
        (upload c namespace digest body (reserved digest s)).0,
        record (upload c namespace digest body (reserved digest s)).1 {
          spool =
              Spool.drop c.semaphores permit
                (upload c namespace digest body (reserved digest s)).1.spool;
        },
      )
  unfolding put_blob
  uploaded headers algorithm hash size body s namespace digest permit admits room =
      rw (put_blob, admits, room)

  IsStored-upload :
      (headers : Headers) (namespace : Text) (digest : Digest) (body : Body) (s : AppState M B S)
      (status : ℕ)
      → authorize c.tokens c.auth headers write ≡ ok namespace
      → require_immutable_precondition headers ≡ ok tt
      → digest.size ≤ c.max_blob_bytes
      → (upload c namespace digest body s).0 ≡ ok status
      → IsStored headers digest body s (upload c namespace digest body s).1 status
  IsStored-upload headers namespace digest body s status authorized immutable limited e =
      let (content, found, same) = uploaded_blob namespace digest body s status e in
      let (outcome, put, registered, answered) =
        stored_blob namespace digest content s status (rw same at e) in
      record {
        namespace = namespace;
        content = content;
        outcome = outcome;
        authorized = authorized;
        immutable = immutable;
        limited = limited;
        is_verified = found;
        put = rw same put;
        registered = rw same registered;
        answered = answered;
      }

  -- The state's other parts do not matter for what has been stored.
  IsStored-between :
      (headers : Headers) (digest : Digest) (body : Body) (s s' : AppState M B S) (status : ℕ)
      (spool spool' : Option S)
      → IsStored headers digest body (record s { spool = spool }) s' status
      → IsStored headers digest body s (record s' { spool = spool' }) status
  IsStored-between headers digest body s s' status spool spool' is = record {
    namespace = is.namespace;
    content = is.content;
    outcome = is.outcome;
    authorized = is.authorized;
    immutable = is.immutable;
    limited = is.limited;
    is_verified = is.is_verified;
    put = is.put;
    registered = is.registered;
    answered = is.answered;
  }

  -- An upload that is answered with a status of success was authorized to write, asked to create
  -- only and is within the size limit; its body arrived whole, has the size and the hash that its
  -- path declares; and exactly that body was put into storage, and the blob registered for the
  -- namespace that the request was authorized for.
  pub put_blob-IsStored :
      (headers : Headers) (algorithm hash : Text) (size : ℕ) (body : Body) (s : AppState M B S)
      (status : ℕ)
      → (put_blob c headers algorithm hash size body s).0 ≡ ok status
      → IsStored headers
          (record { algorithm = algorithm; hash = hash; size = size })
          body
          s
          (put_blob c headers algorithm hash size body s).1
          status
  unfolding put_blob
  put_blob-IsStored headers algorithm hash size body s status e =
      elim (Result-cases (admitted c headers algorithm hash size)) [
        | inr (x, refused) ↦ absurd (cc (rw (put_blob, refused) at e))
        | inl ((namespace, digest), admits) ↦
            elim (Result-cases (Spool.reserve c.semaphores digest.size s.spool).0) [
              | inr (x, full) ↦ absurd (cc (rw (put_blob, admits, full) at e))
              | inl (permit, room) ↦
                  let same =
                    uploaded headers algorithm hash size body s namespace digest permit admits
                      room in
                  let (authorized, immutable, named, limited) =
                    admission headers algorithm hash size namespace digest admits in
                  rw (same, ← named)
                    (IsStored-between headers digest body s _ status _ _ (
                      IsStored-upload headers namespace digest body (reserved digest s) status
                        authorized immutable limited (rw same at e)))
            ]
      ]
