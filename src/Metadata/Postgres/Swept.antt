-- ===== src/Metadata/Postgres/Swept.antt =====
-- What a sweep of the Postgres tables (src/metadata/postgres.rs) leaves.
use mr_boxington_cache.Prelude.{
  ℕ, ◌+◌, ◌≡◌, refl, sym, ap, subst, ◌∙◌, Bool, true, false, not, List, [], ◌∷◌, ok, All, keep,
  arith, Result-cases, Bool-cases, Option-cases, Option, none, some, inl, inr, ok_inj, err_not_ok,
  length,
}
use mr_boxington_cache.Prelude.Bytes.{Text, text}
use mr_boxington_cache.Metadata.{Access}
use mr_boxington_cache.Server.Handler.{continue-eq-ok}
use mr_boxington_cache.Metadata.Postgres.Queries.{Ran, query-ok}
use mr_boxington_cache.Metadata.Postgres.{
  BlobRow, ResultRow, Database, Outage, unsent, unanswered, Postgres, query, next_outage,
  later_outages, has_blob,
}
use mr_boxington_cache.Metadata.Postgres.Results.{Jsonb}
use mr_boxington_cache.Metadata.Postgres.Sweep.{
  SweepOutcome, delete, age_of, is_old, Reference, no_object, broken, names, reference, lost,
  dangling, delete_blobs, delete_results, delete_manifests, begin, first_error, statements,
  commit_transaction, transaction, sweep,
}

delete-keep :
    {A : Type 0} (test : A → Bool) (rows : List A)
    → (delete test rows).1 ≡ keep (λ row. not (test row)) rows
unfolding delete
delete-keep test [] = refl
delete-keep test (row ∷ rows) = elim (Bool-cases (test row)) [
  | inl e ↦ rw (delete, e) (delete-keep test rows)
  | inr e ↦ rw (delete, e) (ap (λ l. row ∷ l) (delete-keep test rows))
]

delete-length :
    {A : Type 0} (test : A → Bool) (rows : List A)
    → (delete test rows).0 + length (delete test rows).1 ≡ length rows
unfolding delete
delete-length test [] = refl
delete-length test (row ∷ rows) = elim (Bool-cases (test row)) [
  | inl e ↦ rw (delete, e) (omega (arith, delete-length test rows))
  | inr e ↦ rw (delete, e) (omega (arith, delete-length test rows))
]

-- What is kept passes the test.
All-keep :
    {A : Type 0} (test : A → Bool) (rows : List A) → All (λ row. test row ≡ true) (keep test rows)
All-keep test [] = tt
All-keep test (row ∷ rows) = elim (Bool-cases (test row)) [
  | inl e ↦ rw e (e, All-keep test rows)
  | inr e ↦ rw e (All-keep test rows)
]

module _ (j : Jsonb) where
  -- A result's field refers to nothing, or to a digest that has a row.
  pub Held : List BlobRow → Text → Reference → Type 0
  Held rows namespace no_object = Unit
  Held rows namespace broken = ⊥
  Held rows namespace (names d) = has_blob (namespace, d) rows ≡ true

  Held-lost :
      (rows : List BlobRow) (namespace : Text) (r : Reference)
      → lost j rows namespace r ≡ false
      → Held rows namespace r
  unfolding lost Held
  Held-lost rows namespace no_object h = tt
  Held-lost rows namespace broken h = absurd cc
  Held-lost rows namespace (names d) h = ground (arith, h)

  pub IsHeld : List BlobRow → ResultRow → Type 0
  IsHeld rows row =
      Held rows row.key.0 (reference j (text "metadata") row.result)
      × Held rows row.key.0 (reference j (text "output_root") row.result)

  IsHeld-dangling :
      (rows : List BlobRow) (row : ResultRow) → not (dangling j rows row) ≡ true → IsHeld rows row
  unfolding dangling IsHeld
  IsHeld-dangling rows row h = (
    Held-lost rows row.key.0 (reference j (text "metadata") row.result) (ground (arith, h)),
    Held-lost rows row.key.0 (reference j (text "output_root") row.result) (ground (arith, h)),
  )

  All-IsHeld :
      (rows : List BlobRow) (results : List ResultRow)
      → All (λ row. not (dangling j rows row) ≡ true) results
      → All (λ row. IsHeld rows row) results
  All-IsHeld rows [] h = tt
  All-IsHeld rows (row ∷ results) (here, there) =
      (IsHeld-dangling rows row here, All-IsHeld rows results there)

  commit_transaction-ok :
      {A : Type 0} (b : A) (before : Database) (o : Option Outage) (pg pg' : Postgres) (a : A)
      → commit_transaction j b before o pg ≡ (ok a, pg')
      → (b ≡ a) × (pg.database ≡ pg'.database)
  unfolding commit_transaction
  commit_transaction-ok b before none pg pg' a e =
      (ok_inj (ap (λ r. r.0) e), ap (λ r. r.1.database) e)
  commit_transaction-ok b before (some (unsent x)) pg pg' a e =
      absurd (err_not_ok (ap (λ r. r.0) e))
  commit_transaction-ok b before (some (unanswered x)) pg pg' a e =
      absurd (err_not_ok (ap (λ r. r.0) e))

  transaction-ok :
      {A : Type 0} (body : Access Postgres A) (pg pg' : Postgres) (a : A)
      → transaction j body pg ≡ (ok a, pg')
      → (pg1 : Postgres) × (body pg ≡ (ok a, pg1)) × (pg1.database ≡ pg'.database)
  unfolding transaction
  transaction-ok body pg pg' a e = elim (Result-cases (body pg).0) [
    | inl (b, h) ↦
        let (same, left) =
          commit_transaction-ok b pg.database (next_outage (body pg).1.outages)
            (record (body pg).1 { outages = later_outages (body pg).1.outages }) pg' a
            (rw (transaction, h) at e) in
        ((body pg).1, ap (λ r. (r, (body pg).1)) (h ∙ ap ok same), left)
    | inr (x, h) ↦ absurd (err_not_ok (ap (λ r. r.0) (rw (transaction, h) at e)))
  ]

  -- The tables after a sweep at a time, and what it says it has removed.
  pub record IsSwept (now age : ℕ) (before after : Database) (outcome : SweepOutcome) : Type 0 where
    -- Exactly what is not too old stays, and exactly the results with all their objects.
    pub blobs :
        after.namespace_blobs
        ≡ keep (λ row. not (is_old now age row.created_at)) before.namespace_blobs
    pub results :
        after.action_results
        ≡ keep (λ row. not (dangling j after.namespace_blobs row)) before.action_results
    pub manifests :
        after.action_manifests
        ≡ keep (λ row. not (is_old now age row.updated_at)) before.action_manifests
    pub held : All (λ row. IsHeld after.namespace_blobs row) after.action_results
    pub counted :
        (outcome.blobs + length after.namespace_blobs ≡ length before.namespace_blobs)
        × (outcome.action_results + length after.action_results ≡ length before.action_results)
        × (outcome.manifests + length after.action_manifests ≡ length before.action_manifests)

  -- The three statements, where they run.
  all_deleted : ℕ → ℕ → Database → SweepOutcome × Database
  all_deleted now age d =
      let blobs = delete (λ row. is_old now age row.created_at) d.namespace_blobs in
      let results = delete (dangling j blobs.1) d.action_results in
      let manifests = delete (λ row. is_old now age row.updated_at) d.action_manifests in
      (
        record { blobs = blobs.0; action_results = results.0; manifests = manifests.0 },
        record {
          namespace_blobs = blobs.1;
          action_results = results.1;
          action_manifests = manifests.1;
        },
      )

  IsSwept-all_deleted :
      (now age : ℕ) (d : Database)
      → IsSwept now age d (all_deleted now age d).1 (all_deleted now age d).0
  unfolding all_deleted
  IsSwept-all_deleted now age d =
      let blobs = (delete (λ (row : BlobRow). is_old now age row.created_at) d.namespace_blobs).1 in
      let kept = delete-keep (dangling j blobs) d.action_results in
      record {
        blobs = delete-keep (λ row. is_old now age row.created_at) d.namespace_blobs;
        results = kept;
        manifests = delete-keep (λ row. is_old now age row.updated_at) d.action_manifests;
        held =
            subst (λ rows. All (λ row. IsHeld blobs row) rows) (sym kept)
              (All-IsHeld blobs (keep (λ row. not (dangling j blobs row)) d.action_results)
                (All-keep (λ row. not (dangling j blobs row)) d.action_results));
        counted = (
          delete-length (λ row. is_old now age row.created_at) d.namespace_blobs,
          delete-length (dangling j blobs) d.action_results,
          delete-length (λ row. is_old now age row.updated_at) d.action_manifests,
        );
      }

  -- The statements one by one, on tables that are all but one as they were.
  abbrev blobs_deleted : ℕ → ℕ → Database → ℕ × Database
  blobs_deleted now age d =
      let rows = delete (λ row. is_old now age row.created_at) d.namespace_blobs in
      (rows.0, record d { namespace_blobs = rows.1 })

  abbrev results_deleted : Database → ℕ × Database
  results_deleted d =
      let rows = delete (dangling j d.namespace_blobs) d.action_results in
      (rows.0, record d { action_results = rows.1 })

  abbrev manifests_deleted : ℕ → ℕ → Database → ℕ × Database
  manifests_deleted now age d =
      let rows = delete (λ row. is_old now age row.updated_at) d.action_manifests in
      (rows.0, record d { action_manifests = rows.1 })

  -- The results are deleted where no cast fails.
  delete_results-ok :
      (now : ℕ) (d d' : Database) (n : ℕ)
      → delete_results j now d ≡ ok (n, d')
      → results_deleted d ≡ (n, d')
  unfolding delete_results
  delete_results-ok now d d' n e = elim (Option-cases (first_error j d.action_results)) [
    | inl cast ↦ ok_inj (rw (delete_results, cast) at e)
    | inr (x, failed) ↦ absurd (err_not_ok (rw (delete_results, failed) at e))
  ]

  all_deleted-in_turn :
      (now age : ℕ) (d d1 d2 d3 : Database) (blobs results manifests : ℕ)
      → blobs_deleted now age d ≡ (blobs, d1)
      → results_deleted d1 ≡ (results, d2)
      → manifests_deleted now age d2 ≡ (manifests, d3)
      → all_deleted now age d
        ≡ (record { blobs = blobs; action_results = results; manifests = manifests }, d3)
  unfolding all_deleted
  all_deleted-in_turn now age d d1 d2 d3 blobs results manifests e1 e2 e3 = rw (
    sym (ap (λ r. r.0) e3),
    sym (ap (λ r. r.1) e3),
    sym (ap (λ r. r.0) e2),
    sym (ap (λ r. r.1) e2),
    sym (ap (λ r. r.0) e1),
    sym (ap (λ r. r.1) e1),
  )

  statements-ok :
      (age : ℕ) (pg pg' : Postgres) (outcome : SweepOutcome)
      → statements j age pg ≡ (ok outcome, pg')
      → all_deleted pg.now age pg.database ≡ (outcome, pg'.database)
  unfolding statements Ran begin delete_blobs delete_manifests all_deleted
  statements-ok age pg pg' outcome e =
      let (u, p1, h1, r1) = continue-eq-ok _ (query (begin j) pg) e in
      let (blobs, p2, h2, r2) = continue-eq-ok _ (query (delete_blobs j age) p1) r1 in
      let (results, p3, h3, r3) = continue-eq-ok _ (query (delete_results j) p2) r2 in
      let (manifests, p4, h4, r4) = continue-eq-ok _ (query (delete_manifests j age) p3) r3 in
      let (d1, n1) = query-ok (begin j) pg p1 u h1 in
      let (d2, n2) = query-ok (delete_blobs j age) p1 p2 blobs h2 in
      let (d3, n3) = query-ok (delete_results j) p2 p3 results h3 in
      let (d4, n4) = query-ok (delete_manifests j age) p3 p4 manifests h4 in
      let begun : pg.database ≡ p1.database = ap (λ r. r.1) (ok_inj d1) in
      let ended : ◌≡◌ {A = SweepOutcome × Database}
          (record { blobs = blobs; action_results = results; manifests = manifests }, p4.database)
          (outcome, pg'.database) =
        ap (λ d. (record { blobs = blobs; action_results = results; manifests = manifests }, d))
          (ap (λ r. r.1.database) r4)
        ∙ ap (λ o. (o, pg'.database)) (ok_inj (ap (λ r. r.0) r4)) in
      all_deleted-in_turn pg.now age pg.database p2.database p3.database p4.database blobs results
        manifests
        (subst (λ d. blobs_deleted pg.now age d ≡ (blobs, p2.database)) (sym begun)
          (subst (λ t. blobs_deleted t age p1.database ≡ (blobs, p2.database)) n1 (ok_inj d2)))
        (delete_results-ok p2.now p2.database p3.database results d3)
        (subst (λ t. manifests_deleted t age p3.database ≡ (manifests, p4.database)) (n3 ∙ n2 ∙ n1)
          (ok_inj d4))
      ∙ ended

-- A sweep that answers has left exactly the blobs whose put is not older than the age, the results
-- of which each object that they name has a row in their namespace, and the manifests whose last
-- change is not older than the age; no result that is left names a lost object; and it answers how
-- many rows it has removed from each table.
pub sweep-IsSwept :
    (j : Jsonb) (days : ℕ) (pg pg' : Postgres) (outcome : SweepOutcome)
    → sweep j days pg ≡ (ok outcome, pg')
    → IsSwept j pg.now (age_of days) pg.database pg'.database outcome
unfolding sweep
sweep-IsSwept j days pg pg' outcome e =
    let (pg1, ended, kept) = transaction-ok j (statements j (age_of days)) pg pg' outcome e in
    let done = statements-ok j (age_of days) pg pg1 outcome ended in
    subst (λ r. IsSwept j pg.now (age_of days) pg.database r.1 r.0)
      (done ∙ ap (λ d. (outcome, d)) kept) (IsSwept-all_deleted j pg.now (age_of days) pg.database)
