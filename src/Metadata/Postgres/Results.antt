-- ===== src/Metadata/Postgres/Results.antt =====
-- Action results and manifests in Postgres: `get`, `get_batch`, `commit`, `get_manifest` and
-- `commit_manifest` of src/metadata/postgres.rs.
use mr_boxington_cache.Prelude.{
  ℕ, Bool, true, false, not, ◌&&◌, List, [], ◌∷◌, Option, none, some, Result, ok, err, map,
  is_empty, if◌then◌else◌,
}
use mr_boxington_cache.Prelude.Bytes.{Text, text}
use mr_boxington_cache.Prelude.Equality.{◌==◌, nat_eq, list_eq}
use mr_boxington_cache.Json.{Value}
use mr_boxington_cache.Protocol.{Digest, Key, key_eq}
use mr_boxington_cache.Server.Errors.{Fault, fault}
use mr_boxington_cache.Metadata.{
  ActionResult, Manifest, CommitOutcome, ManifestCommitOutcome, ManifestRecord, Access,
  MetadataStore,
}
use mr_boxington_cache.Server.Handler.{pure, lift, ◌>>=◌}
use mr_boxington_cache.Metadata.Postgres.{
  ResultRow, ManifestRow, Database, Postgres, Statement, query, representable_digests, allowed,
  visible_blobs, register_blob, forget_blob, touch_blobs,
}

-- `serde_json::to_value`, `from_value` and `==` on values, and PostgreSQL's casts.
pub record Jsonb : Type 0 where
  pub to_value : ActionResult → Result Fault Value
  pub from_value : Value → Result Fault ActionResult
  pub manifest_to_value : Manifest → Result Fault Value
  pub manifest_from_value : Value → Result Fault Manifest
  pub value_eq : Value → Value → Bool
  pub to_bigint : Text → Result Fault ℕ
  -- PostgreSQL's `->>`, for a value that is there
  pub to_text : Value → Option Text

unfoldable pub result_at : Key → List ResultRow → Option Value
result_at key [] = none
result_at key (row ∷ rows) = if row.key == key then some row.result else result_at key rows

unfoldable pub manifest_at : Key → List ManifestRow → Option ManifestRow
manifest_at key [] = none
manifest_at key (row ∷ rows) = if row.key == key then some row else manifest_at key rows

-- A statement that only reads.
abbrev pub select : {A : Type 0} → (Database → A) → Statement A
select f now database = ok (f database, database)

abbrev violated : Fault
violated = fault (text "new row violates check constraint")

-- INSERT INTO action_results .. ON CONFLICT DO NOTHING, and `rows_affected() == 1`
unfoldable pub insert_result : Key → Value → Statement Bool
unfolding allowed result_at
insert_result key encoded now database =
    if not (allowed key.1) then err violated else elim (result_at key database.action_results) [
      | some existing ↦ ok (false, database)
      | none ↦ ok (
        true,
        record database {
          action_results = record { key = key; result = encoded } ∷ database.action_results;
        },
      )
    ]

-- UPDATE action_manifests SET .. WHERE .. AND etag = $7, and its `rows_affected() != 0`
unfoldable pub update_rows :
    ℕ → Key → Text → Text → Value → List ManifestRow → Bool × List ManifestRow
update_rows now key expected etag manifest [] = (false, [])
update_rows now key expected etag manifest (row ∷ rows) =
    let (changed, rest) = update_rows now key expected etag manifest rows in
    if row.key == key && row.etag == expected
    then (true, record row { etag = etag; manifest = manifest; updated_at = now } ∷ rest)
    else (changed, row ∷ rest)

unfoldable pub update_manifest : Key → Text → Text → Value → Statement Bool
unfolding update_rows
update_manifest key expected etag manifest now database =
    let (changed, rows) = update_rows now key expected etag manifest database.action_manifests in
    ok (changed, record database { action_manifests = rows })

-- CHECK (algorithm = 'blake3'), CHECK (size >= 0)
unfoldable pub allowed_manifest : Digest → Bool
unfolding allowed
allowed_manifest d = d.algorithm == text "blake3" && allowed d

unfoldable pub insert_manifest : Key → Text → Value → Statement Bool
unfolding allowed_manifest manifest_at
insert_manifest key etag manifest now database =
    if not (allowed_manifest key.1)
    then err violated
    else elim (manifest_at key database.action_manifests) [
      | some existing ↦ ok (false, database)
      | none ↦ ok (
        true,
        record database {
          action_manifests =
              record { key = key; etag = etag; manifest = manifest; updated_at = now }
              ∷ database.action_manifests;
        },
      )
    ]

module _ (j : Jsonb) where
  -- `row.map(from_value).transpose()`
  unfoldable pub decoded : Option Value → Result Fault (Option ActionResult)
  decoded none = ok none
  decoded (some value) = elim (j.from_value value) [ err e ↦ err e | ok result ↦ ok (some result) ]

  unfoldable pub get : Text → Digest → Access Postgres (Option ActionResult)
  unfolding query result_at decoded
  get namespace action = do
    row ← query (select (λ database. result_at (namespace, action) database.action_results))
    lift (decoded row)

  -- The results of the rows that are there, in order; the first that cannot be read ends it.
  unfoldable pub decode_all : List (Option Value) → Result Fault (List ActionResult)
  decode_all [] = ok []
  decode_all (none ∷ rows) = decode_all rows
  decode_all (some value ∷ rows) = elim (j.from_value value) [
    | err e ↦ err e
    | ok result ↦ elim (decode_all rows) [ err e ↦ err e | ok results ↦ ok (result ∷ results) ]
  ]

  unfoldable pub get_batch : Text → List Digest → Access Postgres (List ActionResult)
  unfolding query result_at representable_digests decode_all
  get_batch namespace actions pg =
      let requested = representable_digests actions in
      if is_empty requested
      then (ok [], pg)
      else (query (
              select
                (λ database. map (λ d. result_at (namespace, d) database.action_results) requested))
            >>= λ rows. lift (decode_all rows))
          pg

  -- What is there already, compared with what was to be written.
  unfoldable pub compared : Value → Option ActionResult → Result Fault CommitOutcome
  compared encoded none = err (fault (text "action result disappeared after conflict"))
  compared encoded (some existing) = elim (j.to_value existing) [
    | err e ↦ err e
    | ok value ↦
        ok (
          if j.value_eq value encoded then CommitOutcome.already_exists else CommitOutcome.conflict)
  ]

  unfoldable pub commit : Text → Digest → ActionResult → Access Postgres CommitOutcome
  unfolding query insert_result get compared
  commit namespace action result = do
    encoded ← lift (j.to_value result)
    inserted ← query (insert_result (namespace, action) encoded)
    if inserted
        then pure CommitOutcome.created
        else (get namespace action >>= λ existing. lift (compared encoded existing))

  unfoldable pub decoded_manifest : Option ManifestRow → Result Fault (Option ManifestRecord)
  decoded_manifest none = ok none
  decoded_manifest (some row) = elim (j.manifest_from_value row.manifest) [
    | err e ↦ err e
    | ok manifest ↦ ok (some (record { etag = row.etag; manifest = manifest }))
  ]

  unfoldable pub get_manifest : Text → Digest → Access Postgres (Option ManifestRecord)
  unfolding query manifest_at decoded_manifest
  get_manifest namespace key = do
    row ← query (select (λ database. manifest_at (namespace, key) database.action_manifests))
    lift (decoded_manifest row)

  -- The statement of a commit, and what tells its outcome.
  unfoldable pub manifest_statement : Key → Option Text → Text → Value → Statement Bool
  unfolding update_manifest insert_manifest
  manifest_statement key (some expected) etag manifest = update_manifest key expected etag manifest
  manifest_statement key none etag manifest = insert_manifest key etag manifest

  unfoldable pub manifest_outcome : Bool → Option Text → ManifestCommitOutcome
  manifest_outcome false expected = ManifestCommitOutcome.precondition_failed
  manifest_outcome true (some expected) = ManifestCommitOutcome.updated
  manifest_outcome true none = ManifestCommitOutcome.created

  unfoldable pub commit_manifest :
      Text → Digest → Option Text → Text → Manifest → Access Postgres ManifestCommitOutcome
  unfolding query manifest_statement manifest_outcome
  commit_manifest namespace key expected_etag etag manifest = do
    encoded ← lift (j.manifest_to_value manifest)
    changed ← query (manifest_statement (namespace, key) expected_etag etag encoded)
    pure (manifest_outcome changed expected_etag)

-- The trait's implementation.
abbrev pub postgres_store : Jsonb → MetadataStore Postgres
postgres_store j = record {
  visible_blobs = visible_blobs;
  register_blob = register_blob;
  forget_blob = forget_blob;
  touch_blobs = touch_blobs;
  get = get j;
  get_batch = get_batch j;
  commit = commit j;
  get_manifest = get_manifest j;
  commit_manifest = commit_manifest j;
}
