-- ===== src/Metadata/Postgres.antt =====
-- `PostgresMetadata` of src/metadata/postgres.rs over the tables of migrations/: the tables as
-- lists of rows, and the statements about blobs. Each statement is one step of the database; the
-- pool or the network may fail it, before the server runs it or after. A BIGINT stands for its 64
-- bits, so that `as i64` changes nothing, and numbers of 2^63 and more are negative.
pub mod Results
pub mod Sweep
pub mod Queries
pub mod Atomicity
pub mod Atomic
pub mod Visible
pub mod Refines
pub mod Swept
use mr_boxington_cache.Prelude.{
  ℕ, suc, ◌+◌, ◌-◌, Bool, true, false, not, ◌&&◌, ◌||◌, List, [], ◌∷◌, Option, none, some, Result,
  ok, err, keep, ltb, is_empty, any, map, if◌then◌else◌,
}
use mr_boxington_cache.Prelude.Bytes.{Text, text}
use mr_boxington_cache.Prelude.Equality.{◌==◌, nat_eq, list_eq, contains}
use mr_boxington_cache.Json.{Value}
use mr_boxington_cache.Protocol.{Digest, Key, digest_eq, key_eq}
use mr_boxington_cache.Server.Errors.{Fault, fault}
use mr_boxington_cache.Metadata.{PutOutcome, Access}

-- The tables; a row's primary key is the namespace and the digest. Times are in seconds.
pub record BlobRow : Type 0 where
  pub key : Key
  pub created_at : ℕ
  pub last_accessed_at : ℕ

pub record ResultRow : Type 0 where
  pub key : Key
  pub result : Value

pub record ManifestRow : Type 0 where
  pub key : Key
  pub etag : Text
  pub manifest : Value
  pub updated_at : ℕ

pub record Database : Type 0 where
  pub namespace_blobs : List BlobRow
  pub action_results : List ResultRow
  pub action_manifests : List ManifestRow

-- How a statement fails for the pool or the network: it has not reached the server, or the server
-- has run it and its answer is lost.
pub data Outage : Type 0 where
  unsent unanswered : Fault → Outage

-- The database, its clock, and the outages that the statements to come meet, if any.
pub record Postgres : Type 0 where
  pub database : Database
  pub now : ℕ
  pub outages : List (Option Outage)

-- What a statement does where it runs, at a time of the clock: it may be against a constraint.
abbrev pub Statement : Type 0 → Type 0
Statement A = ℕ → Database → Result Fault (A × Database)

unfoldable pub next_outage : List (Option Outage) → Option Outage
next_outage [] = none
next_outage (o ∷ os) = o

unfoldable pub later_outages : List (Option Outage) → List (Option Outage)
later_outages [] = []
later_outages (o ∷ os) = os

-- The statement's result, and the tables with it unless it fails.
unfoldable pub ran :
    {A : Type 0} → Postgres → Result Fault (A × Database) → Result Fault A × Postgres
ran pg (err e) = (err e, pg)
ran pg (ok (a, database)) = (ok a, record pg { database = database })

unfoldable pub attempt : {A : Type 0} → Statement A → Option Outage → Access Postgres A
unfolding ran
attempt statement none pg = ran pg (statement pg.now pg.database)
attempt statement (some (unsent e)) pg = (err e, pg)
attempt statement (some (unanswered e)) pg = (err e, (ran pg (statement pg.now pg.database)).1)

-- `query(..).execute(&self.pool).await?`
unfoldable pub query : {A : Type 0} → Statement A → Access Postgres A
unfolding next_outage later_outages attempt
query statement pg =
    attempt statement (next_outage pg.outages) (record pg { outages = later_outages pg.outages })

abbrev pub i64_limit : ℕ
i64_limit = 9223372036854775808

-- `i64::try_from(digest.size).ok()` for each
unfoldable pub representable_digests : List Digest → List Digest
representable_digests digests = keep (λ d. ltb d.size i64_limit) digests

-- CHECK (algorithm IN ('blake3', 'sha256')), CHECK (size >= 0)
unfoldable pub allowed : Digest → Bool
allowed d = (d.algorithm == text "blake3" || d.algorithm == text "sha256") && ltb d.size i64_limit

unfoldable pub has_blob : Key → List BlobRow → Bool
has_blob key [] = false
has_blob key (row ∷ rows) = row.key == key || has_blob key rows

-- SELECT requested.ordinality .. JOIN .. ORDER BY requested.ordinality, from an ordinal on.
unfoldable pub ordinals : Text → List BlobRow → ℕ → List Digest → List ℕ
unfolding has_blob
ordinals namespace rows n [] = []
ordinals namespace rows n (d ∷ ds) =
    let rest = ordinals namespace rows (suc n) ds in
    if has_blob (namespace, d) rows then n ∷ rest else rest

-- `digests.get(index)`
unfoldable pub get_elem? : List Digest → ℕ → Option Digest
get_elem? [] n = none
get_elem? (d ∷ ds) ℕ.zero = some d
get_elem? (d ∷ ds) (suc n) = get_elem? ds n

-- The rows' digests, by their ordinals.
unfoldable pub digests_at : List Digest → List ℕ → Result Fault (List Digest)
unfolding get_elem?
digests_at digests [] = ok []
digests_at digests (n ∷ ns) = elim (get_elem? digests (n - 1)) [
  | none ↦ err (fault (text "database returned an invalid blob ordinal"))
  | some d ↦ elim (digests_at digests ns) [ err e ↦ err e | ok ds ↦ ok (d ∷ ds) ]
]

unfoldable pub select_blobs : Text → List Digest → Statement (List ℕ)
unfolding ordinals
select_blobs namespace digests now database =
    ok (ordinals namespace database.namespace_blobs 1 digests, database)

unfoldable pub visible_blobs : Text → List Digest → Access Postgres (List Digest)
unfolding query representable_digests digests_at select_blobs
visible_blobs namespace digests pg =
    let requested = representable_digests digests in
    if is_empty requested
    then (ok [], pg)
    else (let (rows, pg') = query (select_blobs namespace requested) pg in
        (elim rows [ err e ↦ err e | ok ns ↦ digests_at requested ns ], pg'))

abbrev pub access_refresh_interval : ℕ
access_refresh_interval = 3600

-- UPDATE namespace_blobs .. AND blobs.last_accessed_at < now() - interval
unfoldable pub touch_rows : ℕ → Text → List Digest → List BlobRow → List BlobRow
touch_rows now namespace digests rows =
    map
      (λ row.
        if row.key.0 == namespace
          && (contains digests row.key.1
              && ltb (row.last_accessed_at + access_refresh_interval) now)
        then record row { last_accessed_at = now }
        else row)
      rows

unfoldable pub touch_statement : Text → List Digest → Statement (Unit {0})
unfolding touch_rows
touch_statement namespace digests now database = ok (
  tt,
  record database { namespace_blobs = touch_rows now namespace digests database.namespace_blobs },
)

unfoldable pub touch_blobs : Text → List Digest → Access Postgres (Unit {0})
unfolding query representable_digests touch_statement
touch_blobs namespace digests pg =
    let requested = representable_digests digests in
    if is_empty requested then (ok tt, pg) else query (touch_statement namespace requested) pg

unfoldable pub was_created : PutOutcome → Bool
was_created PutOutcome.created = true
was_created PutOutcome.already_exists = false

-- INSERT .. ON CONFLICT (namespace, algorithm, hash, size) DO UPDATE
unfoldable pub upsert : ℕ → Bool → Key → List BlobRow → List BlobRow
upsert now created key [] = record { key = key; created_at = now; last_accessed_at = now } ∷ []
upsert now created key (row ∷ rows) =
    if row.key == key
    then record row { created_at = if created then now else row.created_at; last_accessed_at = now }
      ∷ rows
    else row ∷ upsert now created key rows

unfoldable pub register_statement : Key → PutOutcome → Statement (Unit {0})
unfolding allowed upsert was_created
register_statement key stored now database =
    if allowed key.1
    then ok (
      tt,
      record database {
        namespace_blobs = upsert now (was_created stored) key database.namespace_blobs;
      },
    )
    else err (fault (text "new row violates check constraint"))

unfoldable pub register_blob : Text → Digest → PutOutcome → Access Postgres (Unit {0})
unfolding query register_statement
register_blob namespace digest stored = query (register_statement (namespace, digest) stored)

-- DELETE FROM namespace_blobs WHERE the key is this one
unfoldable pub forget_statement : Key → Statement (Unit {0})
forget_statement key now database = ok (
  tt,
  record database { namespace_blobs = keep (λ row. not (row.key == key)) database.namespace_blobs },
)

unfoldable pub forget_blob : Text → Digest → Access Postgres (Unit {0})
unfolding query forget_statement
forget_blob namespace digest = query (forget_statement (namespace, digest))
