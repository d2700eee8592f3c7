-- ===== src/Metadata.antt =====
-- The metadata interface of src/metadata/mod.rs: its records, its outcomes, and the trait
-- `MetadataStore` as a record of operations over the store's state.
pub mod Memory
pub mod Postgres
use mr_boxington_cache.Prelude.{
  ap, Result-cases, inl, inr, ◌≡◌, ℕ, zero, suc, ◌+◌, ◌≡◌, Bool, true, false, not, List, [], ◌∷◌,
  Option, none, some, Result, ok, err, is_empty, keep, if◌then◌else◌,
}
use mr_boxington_cache.Prelude.Bytes.{Text}
use mr_boxington_cache.Protocol.{Digest}
use mr_boxington_cache.Server.Errors.{Fault}

-- The protocol's records, as the service reads them.
pub record ActionResult : Type 0 where
  pub version : ℕ
  pub action : Digest
  pub metadata : Option Digest
  pub output_root : Option Digest

pub record Prediction : Type 0 where
  pub action : Digest
  pub adapter : Text
  pub invocation : Digest
  pub payload : Text

pub record Manifest : Type 0 where
  pub version : ℕ
  pub task : Text
  pub predictions : List Prediction

-- `PutOutcome` of src/storage/mod.rs.
pub data PutOutcome : Type 0 where
  created already_exists : PutOutcome

pub data CommitOutcome : Type 0 where
  created already_exists conflict : CommitOutcome

pub data ManifestCommitOutcome : Type 0 where
  created updated precondition_failed : ManifestCommitOutcome

pub record ManifestRecord : Type 0 where
  pub etag : Text
  pub manifest : Manifest

-- What an operation on a state `M` gives: its result, and the state it leaves.
abbrev pub Access : Type 0 → Type 0 → Type 0
Access M A = M → Result Fault A × M

-- The operations of the trait that have no default.
pub record MetadataStore (M : Type 0) : Type 0 where
  pub visible_blobs : Text → List Digest → Access M (List Digest)
  pub register_blob : Text → Digest → PutOutcome → Access M (Unit {0})
  pub forget_blob : Text → Digest → Access M (Unit {0})
  pub touch_blobs : Text → List Digest → Access M (Unit {0})
  pub get : Text → Digest → Access M (Option ActionResult)
  pub get_batch : Text → List Digest → Access M (List ActionResult)
  pub commit : Text → Digest → ActionResult → Access M CommitOutcome
  pub get_manifest : Text → Digest → Access M (Option ManifestRecord)
  pub commit_manifest :
      Text → Digest → Option Text → Text → Manifest → Access M ManifestCommitOutcome

-- `?` on a store's operation.
infixl 5 ◌>>=◌
unfoldable pub ◌>>=◌ : {M A B : Type 0} → Access M A → (A → Access M B) → Access M B
◌>>=◌ m f s = let (r, s') = m s in elim r [ ok a ↦ f a s' | err e ↦ (err e, s') ]

abbrev pub pure : {M A : Type 0} → A → Access M A
pure a s = (ok a, s)

-- The defaults of the trait.
unfoldable pub blob_visible : {M : Type 0} → MetadataStore M → Text → Digest → Access M Bool
unfolding ◌>>=◌
blob_visible store namespace digest =
    store.visible_blobs namespace (digest ∷ []) >>= λ visible. pure (not (is_empty visible))

-- A store whose lookup leaves its state leaves it here too.
pub blob_visible-state :
    {M : Type 0} (store : MetadataStore M) (namespace : Text) (digest : Digest) (m : M)
    → (blob_visible store namespace digest m).1 ≡ (store.visible_blobs namespace (digest ∷ []) m).1
unfolding blob_visible ◌>>=◌
blob_visible-state store namespace digest m =
    elim (Result-cases (store.visible_blobs namespace (digest ∷ []) m).0) [
      | inl (v, e) ↦ rw (blob_visible, ◌>>=◌, e)
      | inr (x, e) ↦ rw (blob_visible, ◌>>=◌, e)
    ]

-- The loop of the default `get_batch`, over the results it holds so far.
push_some : {A : Type 0} → Option A → List A → List A
push_some none results = results
push_some (some r) results = r ∷ results

unfoldable pub get_batch_default :
    {M : Type 0}
    → (Text → Digest → Access M (Option ActionResult))
    → Text
    → List Digest
    → Access M (List ActionResult)
unfolding ◌>>=◌ push_some
get_batch_default get namespace [] = pure []
get_batch_default get namespace (action ∷ actions) = get namespace action >>= λ found.
    get_batch_default get namespace actions >>= λ results. pure (push_some found results)
