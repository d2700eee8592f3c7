-- ===== src/Server/Blobs/Receiving.antt =====
-- What the loop of an upload (src/server.rs) has received when it ends.
use mr_boxington_cache.Prelude.{
  ℕ, ◌+◌, ◌≡◌, refl, sym, ap, ◌∙◌, Bool, true, false, ◌&&◌, List, [], ◌∷◌, ◌++◌, append-nil,
  append_assoc, Option, none, some, Result, ok, err, >>=-eq-ok, ensure, length, length-append, leb,
  ltb, arith,
}
use mr_boxington_cache.Prelude.Bytes.{text}
use mr_boxington_cache.Prelude.Equality.{nat_eq, list_eq}
use mr_boxington_cache.Protocol.{Digest, Algorithm, blake3, sha256, u64_mod}
use mr_boxington_cache.Server.Errors.{internal, too_large}
use mr_boxington_cache.Server.Digests.{map_err}
use mr_boxington_cache.Server.Service.{Config}
use mr_boxington_cache.Server.Blobs.{
  Body, Hashers, update, fed, Received, nothing_received, receive_chunk, receive,
}

-- The bytes of a body that arrives whole.
unfoldable pub delivered : Body → Option (List ℕ)
delivered [] = some []
delivered (err e ∷ body) = none
delivered (ok chunk ∷ body) = elim (delivered body) [
  | none ↦ none
  | some rest ↦ some (chunk ++ rest)
]

pub ok_inj : {E A : Type 0} {a b : A} → ◌≡◌ {A = Result E A} (ok a) (ok b) → a ≡ b
ok_inj e = ground (arith, e)

pub ensured : {E : Type 0} (b : Bool) (e : E) (u : Unit {0}) → ensure b e ≡ ok u → b ≡ true
ensured true e u h = refl
ensured false e u h = absurd cc

pub map_err-eq-ok :
    {E F A : Type 0} (f : E → F) (m : Result E A) (a : A) → map_err f m ≡ ok a → m ≡ ok a
map_err-eq-ok f (ok b) a h = ground arith
map_err-eq-ok f (err e) a h = absurd cc

fed-update :
    (kind : Algorithm) (chunk : List ℕ) (h : Hashers)
    → fed kind (update kind chunk h) ≡ fed kind h ++ chunk
unfolding fed update
fed-update blake3 chunk h = refl
fed-update sha256 chunk h = refl

pub fed-nothing : (kind : Algorithm) → fed kind nothing_received.hashers ≡ []
unfolding fed
fed-nothing blake3 = refl
fed-nothing sha256 = refl

-- What the loop has received from `r` on, where the bytes that came are `content`.
pub record IsReceived (kind : Algorithm) (r r' : Received) (content : List ℕ) : Type 0 where
  pub size : r'.size ≡ r.size + length content
  pub file : r'.file ≡ r.file ++ content
  pub hashed : fed kind r'.hashers ≡ fed kind r.hashers ++ content

module _ {M B S : Type 0} (c : Config M B S) where
  chunk_received :
      (digest : Digest) (kind : Algorithm) (r r' : Received) (chunk : List ℕ)
      → c.protocol.algorithm_kind digest.algorithm ≡ ok kind
      → receive_chunk c digest r chunk ≡ ok r'
      → IsReceived kind r r' chunk
  unfolding receive_chunk
  chunk_received digest kind r r' chunk k e =
      let (u1, h1, e1) =
        >>=-eq-ok
          (ensure (ltb (r.size + length chunk) u64_mod) (too_large (text "blob is too large"))) _
          (rw (receive_chunk, k) at e) in
      let (u2, h2, e2) =
        >>=-eq-ok
          (ensure
            (leb (r.size + length chunk) digest.size
              && leb (r.size + length chunk) c.max_blob_bytes)
            (too_large (text "blob exceeds declared or configured size")))
          _ e1 in
      let (u4, h4, e4) = >>=-eq-ok (map_err internal (c.disk.write r.file chunk)) _ e2 in
      let is = ok_inj e4 in
      record {
        size = ap (λ (x : Received). x.size) (sym is);
        file = ap (λ (x : Received). x.file) (sym is);
        hashed =
            ap (λ (x : Received). fed kind x.hashers) (sym is) ∙ fed-update kind chunk r.hashers;
      }

  pub body_received :
      (digest : Digest) (kind : Algorithm) (body : Body) (r r' : Received)
      → c.protocol.algorithm_kind digest.algorithm ≡ ok kind
      → receive c digest body r ≡ ok r'
      → (content : List ℕ) × (delivered body ≡ some content) × IsReceived kind r r' content
  unfolding receive delivered
  body_received digest kind [] r r' k e = (
    [],
    refl,
    record {
      size = omega (arith, ap (λ (x : Received). x.size) (sym (ok_inj e)));
      file = ap (λ (x : Received). x.file) (sym (ok_inj e)) ∙ sym (append-nil r.file);
      hashed = ap (λ (x : Received). fed kind x.hashers) (sym (ok_inj e)) ∙ sym (append-nil _);
    },
  )
  body_received digest kind (err x ∷ body) r r' k e = absurd cc
  body_received digest kind (ok chunk ∷ body) r r' k e =
      let (r1, h1, e1) = >>=-eq-ok (receive_chunk c digest r chunk) _ e in
      let one = chunk_received digest kind r r1 chunk k h1 in
      let (rest, came, more) = body_received digest kind body r1 r' k e1 in
      (
        chunk ++ rest,
        rw came refl,
        record {
          size = omega (arith, one.size, more.size, length-append chunk rest);
          file = more.file ∙ rw one.file (append_assoc r.file chunk rest);
          hashed = more.hashed ∙ rw one.hashed (append_assoc (fed kind r.hashers) chunk rest);
        },
      )
