-- ===== src/Server/Pending.antt =====
-- The blob accesses that are served but not yet written: `PendingAccess` of src/server.rs. The
-- lock makes `record` and the taking of what is pending one step each.
pub mod Bounds
pub mod Flush
use mr_boxington_cache.Prelude.{
  ℕ, zero, suc, ◌+◌, ◌-◌, ◌≡◌, Bool, true, false, not, ◌||◌, List, [], ◌∷◌, Option, none, some,
  Result, ok, err, is_empty, leb, length, take, drop, if◌then◌else◌,
}
use mr_boxington_cache.Prelude.Bytes.{Text}
use mr_boxington_cache.Prelude.Equality.{◌==◌, nat_eq, list_eq, contains}
use mr_boxington_cache.Prelude.Maps
use mr_boxington_cache.Protocol.{Protocol, Digest, digest_eq}
use mr_boxington_cache.Metadata.{MetadataStore}

abbrev pub max_pending_accesses : ℕ
max_pending_accesses = 100000

pub record Pending : Type 0 where
  pub namespaces : List (Text × List Digest)
  pub len : ℕ

abbrev pub default : Pending
default = record { namespaces = []; len = 0 }

-- The loop of `record` over the digests, on the set that the namespace holds and on the count.
unfoldable pub hold : List Digest → ℕ → List Digest → List Digest × ℕ
hold held len [] = (held, len)
hold held len (digest ∷ digests) =
    let known = hold held len digests in
    let fresh = hold (digest ∷ held) (len + 1) digests in
    if leb max_pending_accesses len
    then (held, len)
    else if contains held digest
    then known
    else fresh

-- The set of the namespace, an empty one where there is none yet.
unfoldable pub held_of : Text → List (Text × List Digest) → List Digest
held_of namespace namespaces = elim (Maps.lookup namespace namespaces) [
  | none ↦ []
  | some held ↦ held
]

unfoldable pub record_access : Text → List Digest → Pending → Pending
unfolding hold held_of
record_access namespace digests p =
    if is_empty digests || leb max_pending_accesses p.len
    then p
    else let (held, len) = hold (held_of namespace p.namespaces) p.len digests in
      record { namespaces = Maps.insert namespace held p.namespaces; len = len }

-- `slice::chunks` on fuel, of which the length of the slice is enough.
unfoldable pub chunks_on : {A : Type 0} → ℕ → ℕ → List A → List (List A)
chunks_on zero n xs = []
chunks_on (suc fuel) n [] = []
chunks_on (suc fuel) n (x ∷ xs) = take n (x ∷ xs) ∷ chunks_on fuel n (drop n (x ∷ xs))

unfoldable pub chunks : {A : Type 0} → ℕ → List A → List (List A)
unfolding chunks_on
chunks n xs = chunks_on (length xs) n xs

-- One statement per chunk; a failed one is counted and the rest go on.
unfoldable pub touch_chunks :
    {M : Type 0} → MetadataStore M → Text → List (List Digest) → ℕ → M → ℕ × M
touch_chunks store namespace [] failed m = (failed, m)
touch_chunks store namespace (chunk ∷ rest) failed m =
    let (r, m') = store.touch_blobs namespace chunk m in
    let failed' : ℕ = elim r [ ok _ ↦ failed | err _ ↦ failed + 1 ] in
    touch_chunks store namespace rest failed' m'

unfoldable pub touch_namespaces :
    {M : Type 0} → Protocol → MetadataStore M → List (Text × List Digest) → ℕ → M → ℕ × M
unfolding chunks touch_chunks
touch_namespaces p store [] failed m = (failed, m)
touch_namespaces p store ((namespace, digests) ∷ rest) failed m =
    let (failed', m') = touch_chunks store namespace (chunks p.max_batch_items digests) failed m in
    touch_namespaces p store rest failed' m'

-- What is pending is taken first, so that reads go on; the statements that failed are counted.
unfoldable pub flush : {M : Type 0} → Protocol → MetadataStore M → Pending → M → Pending × (ℕ × M)
unfolding touch_namespaces
flush p store pending m = (default, touch_namespaces p store pending.namespaces 0 m)
