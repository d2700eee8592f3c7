-- ===== src/Metadata/Postgres/Visible.antt =====
-- The blobs of a namespace in Postgres (src/metadata/postgres.rs) and in memory
-- (src/metadata/memory.rs): the one store does what the other does.
use mr_boxington_cache.Prelude.{
  ℕ, suc, ◌-◌, ◌≡◌, refl, ap, subst, Bool, not, ◌&&◌, ◌||◌, List, [], ◌∷◌, ◌++◌, append_assoc, some,
  ok, keep, length, Bool-cases, inl, inr, arith,
}
use mr_boxington_cache.Prelude.Bytes.{Text}
use mr_boxington_cache.Prelude.Equality.{◌==◌, eq_iff}
use mr_boxington_cache.Protocol.{Digest, Key, digest_eq, key_eq}
use mr_boxington_cache.Metadata.Postgres.{
  BlobRow, has_blob, ordinals, get_elem?, digests_at, touch_rows, upsert,
}

get_elem?-append :
    (before : List Digest) (d : Digest) (after : List Digest)
    → get_elem? (before ++ (d ∷ after)) (length before) ≡ some d
unfolding get_elem?
get_elem?-append [] d after = refl
get_elem?-append (x ∷ before) d after = get_elem?-append before d after

length-snoc :
    (before : List Digest) (d : Digest) → length (before ++ (d ∷ [])) ≡ suc (length before)
length-snoc [] d = refl
length-snoc (x ∷ before) d = ap suc (length-snoc before d)

-- The ordinals lead back to the digests that have a row, in the order of the request.
pub digests_at-ordinals :
    (namespace : Text) (rows : List BlobRow) (before after : List Digest)
    → digests_at (before ++ after) (ordinals namespace rows (suc (length before)) after)
      ≡ ok (keep (λ d. has_blob (namespace, d) rows) after)
unfolding digests_at ordinals
digests_at-ordinals namespace rows before [] = refl
digests_at-ordinals namespace rows before (d ∷ after) =
    let ih : digests_at (before ++ (d ∷ after))
          (ordinals namespace rows (suc (suc (length before))) after)
        ≡ ok (keep (λ d. has_blob (namespace, d) rows) after) =
      subst
        (λ n.
          digests_at (before ++ (d ∷ after)) (ordinals namespace rows (suc n) after)
          ≡ ok (keep (λ d. has_blob (namespace, d) rows) after))
        (length-snoc before d)
        (subst
          (λ l.
            digests_at l (ordinals namespace rows (suc (length (before ++ (d ∷ [])))) after)
            ≡ ok (keep (λ d. has_blob (namespace, d) rows) after))
          (append_assoc before (d ∷ []) after)
          (digests_at-ordinals namespace rows (before ++ (d ∷ [])) after)) in
    elim (Bool-cases (has_blob (namespace, d) rows)) [
      | inl e ↦
          let here : get_elem? (before ++ (d ∷ after)) (suc (length before) - 1) ≡ some d =
            subst (λ n. get_elem? (before ++ (d ∷ after)) n ≡ some d) (omega arith)
              (get_elem?-append before d after) in
          rw (ordinals, digests_at, e, here, ih)
      | inr e ↦ rw (ordinals, e) ih
    ]

pub has_blob-upsert :
    (now : ℕ) (created : Bool) (key other : Key) (rows : List BlobRow)
    → has_blob other (upsert now created key rows) ≡ (key == other || has_blob other rows)
unfolding has_blob upsert
has_blob-upsert now created key other [] = refl
has_blob-upsert now created key other (row ∷ rows) =
    ground (arith, has_blob-upsert now created key other rows, eq_iff row.key key)

pub has_blob-keep :
    (key other : Key) (rows : List BlobRow)
    → has_blob other (keep (λ row. not (row.key == key)) rows)
      ≡ (not (key == other) && has_blob other rows)
unfolding has_blob
has_blob-keep key other [] = ground arith
has_blob-keep key other (row ∷ rows) = ground (
  arith,
  has_blob-keep key other rows,
  eq_iff row.key key,
  eq_iff row.key other,
  eq_iff key other,
)

pub has_blob-touch_rows :
    (now : ℕ) (namespace : Text) (digests : List Digest) (other : Key) (rows : List BlobRow)
    → has_blob other (touch_rows now namespace digests rows) ≡ has_blob other rows
unfolding has_blob touch_rows
has_blob-touch_rows now namespace digests other [] = refl
has_blob-touch_rows now namespace digests other (row ∷ rows) =
    ground (arith, has_blob-touch_rows now namespace digests other rows)
