-- ===== src/Metadata/Postgres/Refines.antt =====
-- Postgres (src/metadata/postgres.rs) as a refinement of the store in memory
-- (src/metadata/memory.rs), for the blobs of namespaces.
use mr_boxington_cache.Prelude.{
  ℕ, ◌<◌, ◌≡◌, refl, sym, ap, subst, ◌∙◌, Bool, true, not, ◌&&◌, List, [], ◌∷◌, none, ok, ltb, keep,
  is_empty, Bool-cases, inl, inr, ok_inj, err_not_ok, arith,
}
use mr_boxington_cache.Prelude.Bytes.{Text}
use mr_boxington_cache.Prelude.Equality.{
  ◌==◌, eq_iff, contains, insert, remove, contains-remove, nat_eq, list_eq,
}
use mr_boxington_cache.Protocol.{Digest, Key, digest_eq, key_eq}
use mr_boxington_cache.Metadata.{PutOutcome, Access}
use mr_boxington_cache.Metadata.Memory as Memory
use mr_boxington_cache.Metadata.Memory.{MemoryMetadata}
use mr_boxington_cache.Server.Handler.{pure, ◌>>=◌, continue-eq-ok}
use mr_boxington_cache.Metadata.Postgres.{
  BlobRow, Database, Postgres, next_outage, i64_limit, representable_digests, allowed, has_blob,
  ordinals, select_blobs, visible_blobs, touch_rows, touch_statement, touch_blobs, upsert,
  register_statement, register_blob, forget_statement, forget_blob, was_created,
}
use mr_boxington_cache.Metadata.Postgres.Queries.{Ran, query-ok, query-up}
use mr_boxington_cache.Metadata.Postgres.Visible.{
  digests_at-ordinals, has_blob-upsert, has_blob-keep, has_blob-touch_rows,
}

-- The rows are the keys in memory, and the keys are within what the tables can hold.
unfoldable pub Agrees : List BlobRow → List Key → Type 0
Agrees rows keys =
    ((key : Key) → has_blob key rows ≡ contains keys key)
    × ((key : Key) → contains keys key ≡ true → key.1.size < i64_limit)

keep_ext :
    {A : Type 0} (p q r : A → Bool) (l : List A)
    → ((a : A) → (r a && p a) ≡ q a)
    → keep p (keep r l) ≡ keep q l
keep_ext p q r [] h = refl
keep_ext p q r (a ∷ l) h =
    let ih = keep_ext p q r l h in
    elim (Bool-cases (r a)) [
      | inl e ↦ elim (Bool-cases (p a)) [
        | inl e' ↦ rw (e, e', sym (h a)) (rw (e, e') (ap (λ t. a ∷ t) ih))
        | inr e' ↦ rw (e, e', sym (h a)) (rw (e, e') ih)
      ]
      | inr e ↦ rw (e, sym (h a)) (rw e ih)
    ]

representable-Agrees :
    (rows : List BlobRow) (keys : List Key) (namespace : Text) (digests : List Digest)
    → Agrees rows keys
    → keep (λ d. has_blob (namespace, d) rows) (representable_digests digests)
      ≡ keep (λ d. contains keys (namespace, d)) digests
unfolding Agrees representable_digests
representable-Agrees rows keys namespace digests (same, small) =
    keep_ext (λ d. has_blob (namespace, d) rows) (λ d. contains keys (namespace, d))
      (λ d. ltb d.size i64_limit) digests
      λ d. ground (arith, same (namespace, d), small (namespace, d))

no_digests : (digests : List Digest) → is_empty digests ≡ true → digests ≡ []
no_digests [] h = refl
no_digests (d ∷ ds) h = absurd cc

-- A lookup that meets no outage.
visible_blobs-up :
    (namespace : Text) (digests : List Digest) (pg : Postgres)
    → next_outage pg.outages ≡ none
    → (visible_blobs namespace digests pg).0
      ≡ ok (
          keep
            (λ d. has_blob (namespace, d) pg.database.namespace_blobs)
            (representable_digests digests))
unfolding visible_blobs select_blobs
visible_blobs-up namespace digests pg up =
    elim (Bool-cases (is_empty (representable_digests digests))) [
      | inl e ↦ rw (visible_blobs, e) (rw (no_digests (representable_digests digests) e))
      | inr e ↦
          let ran =
            query-up (select_blobs namespace (representable_digests digests)) pg
              (ordinals namespace pg.database.namespace_blobs 1 (representable_digests digests))
              pg.database up refl in
          rw (visible_blobs, e, ran)
            (digests_at-ordinals namespace pg.database.namespace_blobs []
              (representable_digests digests))
    ]

-- What clients do to the blobs of namespaces.
pub data BlobOp : Type 0 where
  register : Text → Digest → PutOutcome → BlobOp
  forget : Text → Digest → BlobOp
  touch : Text → List Digest → BlobOp

unfoldable pub in_postgres : BlobOp → Access Postgres (Unit {0})
unfolding register_blob forget_blob touch_blobs
in_postgres (register n d stored) = register_blob n d stored
in_postgres (forget n d) = forget_blob n d
in_postgres (touch n ds) = touch_blobs n ds

unfoldable pub in_memory : BlobOp → Access MemoryMetadata (Unit {0})
unfolding Memory.register_blob Memory.forget_blob Memory.touch_blobs
in_memory (register n d stored) = Memory.register_blob n d stored
in_memory (forget n d) = Memory.forget_blob n d
in_memory (touch n ds) = Memory.touch_blobs n ds

-- One after the other, up to the first that fails.
unfoldable pub all_in_postgres : List BlobOp → Access Postgres (Unit {0})
unfolding in_postgres
all_in_postgres [] = pure tt
all_in_postgres (op ∷ ops) = in_postgres op >>= λ u. all_in_postgres ops

unfoldable pub all_in_memory : List BlobOp → MemoryMetadata → MemoryMetadata
unfolding in_memory
all_in_memory [] m = m
all_in_memory (op ∷ ops) m = all_in_memory ops (in_memory op m).1

register-Agrees :
    (key : Key) (now : ℕ) (created : Bool) (rows : List BlobRow) (keys : List Key)
    → allowed key.1 ≡ true
    → Agrees rows keys
    → Agrees (upsert now created key rows) (insert keys key).1
unfolding Agrees allowed
register-Agrees key now created rows keys may (same, small) = (
  λ other. ground (
    arith,
    has_blob-upsert now created key other rows,
    same other,
    eq_iff key other,
    eq_iff other key,
  ),
  λ other h. ground (arith, small other, eq_iff other key),
)

forget-Agrees :
    (key : Key) (rows : List BlobRow) (keys : List Key)
    → Agrees rows keys
    → Agrees (keep (λ row. not (row.key == key)) rows) (remove keys key)
unfolding Agrees
forget-Agrees key rows keys (same, small) = (
  λ other. ground (arith, has_blob-keep key other rows, same other, contains-remove keys key other),
  λ other h. ground (arith, small other, contains-remove keys key other),
)

touch-Agrees :
    (now : ℕ) (namespace : Text) (digests : List Digest) (rows : List BlobRow) (keys : List Key)
    → Agrees rows keys
    → Agrees (touch_rows now namespace digests rows) keys
unfolding Agrees
touch-Agrees now namespace digests rows keys (same, small) =
    (λ other. has_blob-touch_rows now namespace digests other rows ∙ same other, small)

-- The statement of a registration passed the constraints.
register_statement-ok :
    (key : Key) (stored : PutOutcome) (now : ℕ) (d d' : Database)
    → register_statement key stored now d ≡ ok (tt, d')
    → (allowed key.1 ≡ true)
      × (d'.namespace_blobs ≡ upsert now (was_created stored) key d.namespace_blobs)
unfolding register_statement
register_statement-ok key stored now d d' e = elim (Bool-cases (allowed key.1)) [
  | inl may ↦
      (may, sym (ap (λ r. r.1.namespace_blobs) (ok_inj (rw (register_statement, may) at e))))
  | inr not_may ↦ absurd (err_not_ok (rw (register_statement, not_may) at e))
]

register_blob-Agrees :
    (n : Text) (d : Digest) (stored : PutOutcome) (pg pg' : Postgres) (m : MemoryMetadata)
    → Agrees pg.database.namespace_blobs m.blobs
    → register_blob n d stored pg ≡ (ok tt, pg')
    → Agrees pg'.database.namespace_blobs (Memory.register_blob n d stored m).1.blobs
unfolding register_blob Ran Memory.register_blob
register_blob-Agrees n d stored pg pg' m agrees e =
    let (ran, now) = query-ok (register_statement (n, d) stored) pg pg' tt e in
    let (may, rows) = register_statement-ok (n, d) stored pg.now pg.database pg'.database ran in
    rw rows (
      register-Agrees (n, d) pg.now (was_created stored) pg.database.namespace_blobs m.blobs may
        agrees)

forget_blob-Agrees :
    (n : Text) (d : Digest) (pg pg' : Postgres) (m : MemoryMetadata)
    → Agrees pg.database.namespace_blobs m.blobs
    → forget_blob n d pg ≡ (ok tt, pg')
    → Agrees pg'.database.namespace_blobs (Memory.forget_blob n d m).1.blobs
unfolding forget_blob forget_statement Ran Memory.forget_blob
forget_blob-Agrees n d pg pg' m agrees e =
    let (ran, now) = query-ok (forget_statement (n, d)) pg pg' tt e in
    rw (sym (ap (λ r. r.1.namespace_blobs) (ok_inj ran)))
      (forget-Agrees (n, d) pg.database.namespace_blobs m.blobs agrees)

touch_blobs-Agrees :
    (n : Text) (ds : List Digest) (pg pg' : Postgres) (m : MemoryMetadata)
    → Agrees pg.database.namespace_blobs m.blobs
    → touch_blobs n ds pg ≡ (ok tt, pg')
    → Agrees pg'.database.namespace_blobs m.blobs
unfolding touch_blobs touch_statement Ran
touch_blobs-Agrees n ds pg pg' m agrees e =
    elim (Bool-cases (is_empty (representable_digests ds))) [
      | inl none_left ↦
          rw (sym (ap (λ r. r.1.database.namespace_blobs) (rw (touch_blobs, none_left) at e)))
            agrees
      | inr some_left ↦
          let (ran, now) =
            query-ok (touch_statement n (representable_digests ds)) pg pg' tt
              (rw (touch_blobs, some_left) at e) in
          rw (sym (ap (λ r. r.1.namespace_blobs) (ok_inj ran))) (
            touch-Agrees pg.now n (representable_digests ds) pg.database.namespace_blobs m.blobs
              agrees)
    ]

in_postgres-Agrees :
    (op : BlobOp) (pg pg' : Postgres) (m : MemoryMetadata)
    → Agrees pg.database.namespace_blobs m.blobs
    → in_postgres op pg ≡ (ok tt, pg')
    → Agrees pg'.database.namespace_blobs (in_memory op m).1.blobs
unfolding in_postgres in_memory Memory.touch_blobs
in_postgres-Agrees (register n d stored) pg pg' m agrees e =
    register_blob-Agrees n d stored pg pg' m agrees e
in_postgres-Agrees (forget n d) pg pg' m agrees e = forget_blob-Agrees n d pg pg' m agrees e
in_postgres-Agrees (touch n ds) pg pg' m agrees e = touch_blobs-Agrees n ds pg pg' m agrees e

all_in_postgres-Agrees :
    (ops : List BlobOp) (pg pg' : Postgres) (m : MemoryMetadata)
    → Agrees pg.database.namespace_blobs m.blobs
    → all_in_postgres ops pg ≡ (ok tt, pg')
    → Agrees pg'.database.namespace_blobs (all_in_memory ops m).blobs
unfolding all_in_postgres all_in_memory
all_in_postgres-Agrees [] pg pg' m agrees e =
    subst (λ p. Agrees p.database.namespace_blobs m.blobs) (ap (λ r. r.1) e) agrees
all_in_postgres-Agrees (op ∷ ops) pg pg' m agrees e =
    let (u, p1, h, r) = continue-eq-ok (λ u. all_in_postgres ops) (in_postgres op pg) e in
    all_in_postgres-Agrees ops p1 pg' (in_memory op m).1 (in_postgres-Agrees op pg p1 m agrees h) r

-- Postgres refines the store in memory for the blobs of namespaces: from rows that agree with the
-- keys in memory, after any registrations, forgets and touches that Postgres has answered with
-- success, a lookup that meets no outage answers what the store in memory answers after the same
-- calls, in the same order, for whatever digests, those that a row cannot hold included.
pub visible_blobs-refines :
    (ops : List BlobOp) (namespace : Text) (digests : List Digest) (pg pg' : Postgres)
    (m : MemoryMetadata)
    → Agrees pg.database.namespace_blobs m.blobs
    → all_in_postgres ops pg ≡ (ok tt, pg')
    → next_outage pg'.outages ≡ none
    → (visible_blobs namespace digests pg').0
      ≡ (Memory.visible_blobs namespace digests (all_in_memory ops m)).0
unfolding Memory.visible_blobs
visible_blobs-refines ops namespace digests pg pg' m agrees e up =
    visible_blobs-up namespace digests pg' up
    ∙ ap ok (
        representable-Agrees pg'.database.namespace_blobs (all_in_memory ops m).blobs namespace
          digests (all_in_postgres-Agrees ops pg pg' m agrees e))
