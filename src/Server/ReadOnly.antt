-- ===== src/Server/ReadOnly.antt =====
-- Stores whose lookups change nothing, and what the reading handlers of src/server.rs then leave.
use mr_boxington_cache.Prelude.{
  ◌≡◌, sym, ap, ◌∙◌, Bool, true, false, List, [], ◌∷◌, Option, none, some, Result, ok, ok_or, leb,
  Result-cases, inl, inr, err_not_ok,
}
use mr_boxington_cache.Prelude.Bytes.{Text}
use mr_boxington_cache.Prelude.Equality.{◌==◌, nat_eq, list_eq}
use mr_boxington_cache.Protocol.{Digest}
use mr_boxington_cache.Metadata.{Access, blob_visible, blob_visible-state}
use mr_boxington_cache.Server.Errors.{ApiError, internal}
use mr_boxington_cache.Server.Digests.{map_err, validate_digest}
use mr_boxington_cache.Server.Service.{AppState, Blob, Config}
use mr_boxington_cache.Server.Serde.{Serde}
use mr_boxington_cache.Server.Objects.{
  max_object_bytes, is_object, stored_bytes, fetch, read_canonical_object,
}
use mr_boxington_cache.Server.Lookups.{require_blob}
use mr_boxington_cache.Server.Handler.{
  Steps, continue, pure, lift, require, on_metadata, on_blobs, continue-eq-ok,
}

-- `visible_blobs` and the object store's `get` leave their states as they were.
pub record IsReadOnly {M B S : Type 0} (c : Config M B S) : Type 0 where
  pub visible_blobs :
      (namespace : Text) (digests : List Digest) (m : M)
      → (c.store.visible_blobs namespace digests m).1 ≡ m
  pub get : (digest : Digest) (b : B) → (c.objects.get digest b).1 ≡ b

-- Steps that leave the state as it was, where they answer.
pub record Keeps {E S A : Type 0} (steps : Steps E S A) : Type 0 where
  pub kept : (s s' : S) (a : A) → steps s ≡ (ok a, s') → s ≡ s'

module _ {E S : Type 0} where
  pub Keeps-pure : {A : Type 0} (a : A) → Keeps {E = E} {S = S} (pure a)
  Keeps-pure a = record { kept = λ s s' b e. ap (λ r. r.1) e }

  pub Keeps-lift : {A : Type 0} (r : Result E A) → Keeps {S = S} (lift r)
  Keeps-lift r = record { kept = λ s s' a e. ap (λ p. p.1) e }

  pub Keeps-require : (b : Bool) (e : E) → Keeps {S = S} (require b e)
  Keeps-require true e = record { kept = λ s s' a h. ap (λ r. r.1) h }
  Keeps-require false e = record { kept = λ s s' a h. absurd (err_not_ok (ap (λ r. r.0) h)) }

  pub Keeps-bind :
      {A C : Type 0} {first : Steps E S A} {next : A → Steps E S C}
      → Keeps first
      → ((a : A) → Keeps (next a))
      → Keeps (λ s. continue next (first s))
  Keeps-bind {first = first} {next = next} h k = record {
    kept = λ s s' c e.
        let (a, s1, e1, r) = continue-eq-ok next (first s) e in
        h.kept s s1 a e1 ∙ (k a).kept s1 s' c r;
  }

module _ {M B S : Type 0} where
  pub Keeps-on_metadata :
      {A : Type 0} (operation : Access M A)
      → ((m : M) → (operation m).1 ≡ m)
      → Keeps {S = AppState M B S} (on_metadata operation)
  Keeps-on_metadata operation same = record {
    kept =
        λ s s' a e. ap (λ m. record s { metadata = m }) (sym (same s.metadata)) ∙ ap (λ r. r.1) e;
  }

  pub Keeps-on_blobs :
      {A : Type 0} (operation : Access B A)
      → ((b : B) → (operation b).1 ≡ b)
      → Keeps {S = AppState M B S} (on_blobs operation)
  Keeps-on_blobs operation same = record {
    kept = λ s s' a e. ap (λ b. record s { blobs = b }) (sym (same s.blobs)) ∙ ap (λ r. r.1) e;
  }

  module _ (c : Config M B S) (only : IsReadOnly c) where
    pub blob_visible-same :
        (namespace : Text) (digest : Digest) (m : M)
        → (blob_visible c.store namespace digest m).1 ≡ m
    blob_visible-same namespace digest m =
        blob_visible-state c.store namespace digest m ∙ only.visible_blobs namespace (digest ∷ []) m

    Keeps-stored_bytes :
        (namespace : Text) (digest : Digest) (missing : ApiError) (found : Option Blob)
        → Keeps (stored_bytes c namespace digest missing found)
    unfolding stored_bytes
    Keeps-stored_bytes namespace digest missing none = record {
      kept = λ s s' bytes e. absurd (err_not_ok (ap (λ r. r.0) e));
    }
    Keeps-stored_bytes namespace digest missing (some blob) = record {
      kept = λ s s' bytes e. ap (λ r. r.1) e;
    }

    pub Keeps-fetch :
        (namespace : Text) (digest : Digest) (missing : ApiError)
        → Keeps (fetch c namespace digest missing)
    unfolding fetch
    Keeps-fetch namespace digest missing =
        Keeps-bind
          (Keeps-on_metadata (blob_visible c.store namespace digest)
            (blob_visible-same namespace digest))
          λ visible. Keeps-bind (Keeps-require visible missing) λ u.
            Keeps-bind (Keeps-on_blobs (c.objects.get digest) (only.get digest))
              λ found. Keeps-stored_bytes namespace digest missing found

    pub Keeps-read_canonical_object :
        (serde : Serde) (namespace : Text) (digest : Digest) (label : Text)
        → Keeps (read_canonical_object c serde namespace digest label)
    unfolding read_canonical_object
    Keeps-read_canonical_object serde namespace digest label =
        Keeps-bind (Keeps-lift (validate_digest c.protocol digest)) λ u.
          Keeps-bind (Keeps-require (leb digest.size max_object_bytes) _) λ u.
            Keeps-bind (Keeps-fetch namespace digest _) λ bytes.
              Keeps-bind (Keeps-lift (ok_or (serde.value_from_slice bytes) _)) λ value.
                Keeps-bind (Keeps-require (is_object value) _) λ u.
                  Keeps-bind (Keeps-lift (map_err internal (serde.value_to_vec value)))
                    λ again. Keeps-bind (Keeps-require (again == bytes) _) λ u. Keeps-pure value

    pub Keeps-require_blob :
        (namespace : Text) (digest : Digest) (label : Text)
        → Keeps (require_blob c namespace digest label)
    unfolding require_blob
    Keeps-require_blob namespace digest label = record {
      kept = λ s s' u e. elim (Result-cases (validate_digest c.protocol digest)) [
        | inl (v, h) ↦
            ap (λ m. record s { metadata = m })
              (sym (blob_visible-same namespace digest s.metadata))
            ∙ ap (λ r. r.1) (rw (require_blob, h) at e)
        | inr (x, h) ↦ absurd (cc (rw (require_blob, h) at e))
      ];
    }
