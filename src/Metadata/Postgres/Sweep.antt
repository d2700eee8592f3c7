-- ===== src/Metadata/Postgres/Sweep.antt =====
-- `sweep` of src/metadata/postgres.rs: one transaction of three statements.
use mr_boxington_cache.Prelude.{
  ℕ, suc, ◌+◌, ◌*◌, Bool, true, false, not, ◌||◌, List, [], ◌∷◌, Option, none, some, Result, ok,
  err, ltb, if◌then◌else◌,
}
use mr_boxington_cache.Prelude.Bytes.{Text, text}
use mr_boxington_cache.Json.{Value, object, get}
use mr_boxington_cache.Protocol.{Digest}
use mr_boxington_cache.Server.Errors.{Fault}
use mr_boxington_cache.Metadata.{Access}
use mr_boxington_cache.Server.Handler.{pure, ◌>>=◌}
use mr_boxington_cache.Metadata.Postgres.{
  BlobRow, ResultRow, Database, Outage, unsent, unanswered, Postgres, Statement, query, next_outage,
  later_outages, has_blob,
}
use mr_boxington_cache.Metadata.Postgres.Results.{Jsonb}

-- `SweepOutcome` of src/metadata/mod.rs
pub record SweepOutcome : Type 0 where
  pub blobs : ℕ
  pub action_results : ℕ
  pub manifests : ℕ

-- DELETE .. WHERE, and `rows_affected`
unfoldable pub delete : {A : Type 0} → (A → Bool) → List A → ℕ × List A
delete test [] = (0, [])
delete test (row ∷ rows) =
    let (n, rest) = delete test rows in if test row then (suc n, rest) else (n, row ∷ rest)

-- `format!("{older_than_days} days")`, in seconds
unfoldable pub age_of : ℕ → ℕ
age_of days = days * 86400

-- created_at < now() - interval
unfoldable pub is_old : ℕ → ℕ → ℕ → Bool
is_old now age time = ltb (time + age) now

-- What a field of a result refers to: no object, an object that is no digest, or a digest.
pub data Reference : Type 0 where
  no_object broken : Reference
  names : Digest → Reference

pub all_three : Option Text → Option Text → Option ℕ → Reference
all_three (some algorithm) (some hash) (some size) =
    names (record { algorithm = algorithm; hash = hash; size = size })
all_three _ _ _ = broken

module _ (j : Jsonb) where
  text_field : Text → Value → Option Text
  text_field name value = elim (get name value) [ none ↦ none | some field ↦ j.to_text field ]

  -- `(.. ->> name)::bigint`: nothing where there is no text, an error where it is no BIGINT.
  bigint_field : Text → Value → Result Fault (Option ℕ)
  unfolding text_field
  bigint_field name value = elim (text_field name value) [
    | none ↦ ok none
    | some t ↦ elim (j.to_bigint t) [ err e ↦ err e | ok n ↦ ok (some n) ]
  ]

  -- The value of a cast that has not failed.
  cast_value : Result Fault (Option ℕ) → Option ℕ
  cast_value (ok n) = n
  cast_value (err e) = none

  cast_error : Result Fault (Option ℕ) → Option Fault
  cast_error (ok n) = none
  cast_error (err e) = some e

  object_reference : Value → Reference
  unfolding text_field bigint_field cast_value all_three
  object_reference (object fields) =
      all_three (text_field (text "algorithm") (object fields))
        (text_field (text "hash") (object fields))
        (cast_value (bigint_field (text "size") (object fields)))
  object_reference _ = no_object

  unfoldable pub reference : Text → Value → Reference
  unfolding object_reference
  reference name result = elim (get name result) [
    | none ↦ no_object
    | some value ↦ object_reference value
  ]

  -- The referenced object has no row in the result's namespace.
  unfoldable pub lost : List BlobRow → Text → Reference → Bool
  unfolding has_blob
  lost rows namespace no_object = false
  lost rows namespace broken = true
  lost rows namespace (names d) = not (has_blob (namespace, d) rows)

  unfoldable pub dangling : List BlobRow → ResultRow → Bool
  unfolding reference lost
  dangling rows row =
      lost rows row.key.0 (reference (text "metadata") row.result)
      || lost rows row.key.0 (reference (text "output_root") row.result)

  -- The error of the cast in a field's object.
  field_error : Text → Value → Option Fault
  unfolding bigint_field cast_error
  field_error name result = elim (get name result) [
    | none ↦ none
    | some (object fields) ↦ cast_error (bigint_field (text "size") (object fields))
    | some other ↦ none
  ]

  row_error : ResultRow → Option Fault
  unfolding field_error
  row_error row = elim (field_error (text "metadata") row.result) [
    | some e ↦ some e
    | none ↦ field_error (text "output_root") row.result
  ]

  -- The first error of a cast over the rows; the statement fails with it. Each row's casts are
  -- made here, where PostgreSQL may leave out those that its plan does not reach.
  unfoldable pub first_error : List ResultRow → Option Fault
  unfolding row_error
  first_error [] = none
  first_error (row ∷ rows) = elim (row_error row) [ some e ↦ some e | none ↦ first_error rows ]

  unfoldable pub delete_blobs : ℕ → Statement ℕ
  unfolding delete is_old
  delete_blobs age now database =
      let (n, rows) = delete (λ row. is_old now age row.created_at) database.namespace_blobs in
      ok (n, record database { namespace_blobs = rows })

  unfoldable pub delete_results : Statement ℕ
  unfolding delete dangling first_error
  delete_results now database = elim (first_error database.action_results) [
    | some e ↦ err e
    | none ↦
        let (n, rows) = delete (dangling database.namespace_blobs) database.action_results in
        ok (n, record database { action_results = rows })
  ]

  unfoldable pub delete_manifests : ℕ → Statement ℕ
  unfolding delete is_old
  delete_manifests age now database =
      let (n, rows) = delete (λ row. is_old now age row.updated_at) database.action_manifests in
      ok (n, record database { action_manifests = rows })

  -- BEGIN
  unfoldable pub begin : Statement (Unit {0})
  begin now database = ok (tt, database)

  unfoldable pub statements : ℕ → Access Postgres SweepOutcome
  unfolding query delete_blobs delete_results delete_manifests begin
  statements age = do
    begun ← query begin
    blobs ← query (delete_blobs age)
    action_results ← query delete_results
    manifests ← query (delete_manifests age)
    pure (record { blobs = blobs; action_results = action_results; manifests = manifests })

  -- COMMIT, behind what was there `before`: where it does not reach the server the transaction is
  -- rolled back, where its answer is lost it has been made.
  unfoldable pub commit_transaction :
      {A : Type 0} → A → Database → Option Outage → Access Postgres A
  commit_transaction a before none pg = (ok a, pg)
  commit_transaction a before (some (unsent e)) pg = (err e, record pg { database = before })
  commit_transaction a before (some (unanswered e)) pg = (err e, pg)

  -- A statement that fails, whether the server has run it or not, ends in a rollback.
  unfoldable pub transaction : {A : Type 0} → Access Postgres A → Access Postgres A
  unfolding next_outage later_outages commit_transaction
  transaction body pg = elim (body pg).0 [
    | ok a ↦
        commit_transaction a pg.database (next_outage (body pg).1.outages)
          (record (body pg).1 { outages = later_outages (body pg).1.outages })
    | err e ↦ (err e, record (body pg).1 { database = pg.database })
  ]

  unfoldable pub sweep : ℕ → Access Postgres SweepOutcome
  unfolding statements transaction age_of
  sweep older_than_days = transaction (statements (age_of older_than_days))
