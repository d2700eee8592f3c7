-- ===== src/Metadata/Postgres/Atomic.antt =====
-- An operation on Postgres that fails has done nothing or all that it does
-- (src/metadata/postgres.rs).
use mr_boxington_cache.Prelude.{
  ℕ, ◌≡◌, refl, sym, ap, ◌∙◌, ◌⊎◌, Bool, true, false, List, Option, err, is_empty, Result-cases,
  Bool-cases, inl, inr, if◌then◌else◌,
}
use mr_boxington_cache.Prelude.Bytes.{Text}
use mr_boxington_cache.Json.{Value}
use mr_boxington_cache.Protocol.{Digest}
use mr_boxington_cache.Server.Errors.{Fault}
use mr_boxington_cache.Metadata.{ActionResult, Manifest, PutOutcome, CommitOutcome, Access}
use mr_boxington_cache.Server.Handler.{pure, lift, ◌>>=◌}
use mr_boxington_cache.Metadata.Postgres.{
  Database, Postgres, query, representable_digests, touch_statement, touch_blobs,
  register_statement, register_blob, forget_statement, forget_blob,
}
use mr_boxington_cache.Metadata.Postgres.Results.{
  Jsonb, select, result_at, insert_result, decoded, get, compared, commit, manifest_statement,
  manifest_outcome, commit_manifest,
}
use mr_boxington_cache.Metadata.Postgres.Sweep.{
  begin, delete_blobs, delete_results, delete_manifests, statements, age_of, sweep,
}
use mr_boxington_cache.Metadata.Postgres.Queries.{
  steady, IsSteady, IsSteady-query, IsSteady-pure, IsSteady-bind,
}
use mr_boxington_cache.Metadata.Postgres.Atomicity.{
  IsReading, IsAtomic, IsReading-select, IsAtomic-query, continue-lift-state, IsAtomic-bind,
  IsReading-pure, transaction-IsAtomic,
}

get-IsReading :
    (j : Jsonb) (namespace : Text) (action : Digest) → IsReading (get j namespace action)
unfolding get
get-IsReading j namespace action =
    let row = λ (d : Database). result_at (namespace, action) d.action_results in
    record {
      same = λ pg.
          ap (λ (t : Postgres). t.database)
            (continue-lift-state (decoded j) (query (select row) pg))
          ∙ (IsReading-select row).same pg;
    }

-- The rest of a commit, once the insertion has answered.
abbrev rest : Jsonb → Text → Digest → Value → Bool → Access Postgres CommitOutcome
rest j namespace action encoded inserted =
    if inserted
    then pure CommitOutcome.created
    else (get j namespace action >>= λ existing. lift (compared j encoded existing))

rest-IsReading :
    (j : Jsonb) (namespace : Text) (action : Digest) (encoded : Value) (inserted : Bool)
    → IsReading (rest j namespace action encoded inserted)
rest-IsReading j namespace action encoded true = IsReading-pure CommitOutcome.created
rest-IsReading j namespace action encoded false = record {
  same = λ pg.
      ap (λ (t : Postgres). t.database)
        (continue-lift-state (compared j encoded) (get j namespace action pg))
      ∙ (get-IsReading j namespace action).same pg;
}

commit-IsAtomic :
    (j : Jsonb) (namespace : Text) (action : Digest) (result : ActionResult)
    → IsAtomic (commit j namespace action result)
unfolding commit
commit-IsAtomic j namespace action result = record {
  leaves = λ pg. elim (Result-cases (j.to_value result)) [
    | inr (x, broken) ↦ rw (commit, broken) (inl refl)
    | inl (encoded, written) ↦
        rw (commit, written)
          ((IsAtomic-bind (insert_result (namespace, action) encoded)
              (rest j namespace action encoded) (rest-IsReading j namespace action encoded)).leaves
            pg)
  ];
}

commit_manifest-IsAtomic :
    (j : Jsonb) (namespace : Text) (key : Digest) (expected : Option Text) (etag : Text)
    (manifest : Manifest)
    → IsAtomic (commit_manifest j namespace key expected etag manifest)
unfolding commit_manifest
commit_manifest-IsAtomic j namespace key expected etag manifest = record {
  leaves = λ pg. elim (Result-cases (j.manifest_to_value manifest)) [
    | inr (x, broken) ↦ rw (commit_manifest, broken) (inl refl)
    | inl (encoded, written) ↦
        rw (commit_manifest, written)
          ((IsAtomic-bind (manifest_statement j (namespace, key) expected etag encoded)
              (λ changed. pure (manifest_outcome j changed expected))
              (λ changed. IsReading-pure (manifest_outcome j changed expected))).leaves
            pg)
  ];
}

touch_blobs-IsAtomic : (n : Text) (ds : List Digest) → IsAtomic (touch_blobs n ds)
unfolding touch_blobs
touch_blobs-IsAtomic n ds = record {
  leaves = λ pg. elim (Bool-cases (is_empty (representable_digests ds))) [
    | inl none_left ↦ rw (touch_blobs, none_left) (inl refl)
    | inr some_left ↦
        rw (touch_blobs, some_left)
          ((IsAtomic-query (touch_statement n (representable_digests ds))).leaves pg)
  ];
}

statements-IsSteady : (j : Jsonb) (age : ℕ) → IsSteady (statements j age)
unfolding statements
statements-IsSteady j age = IsSteady-bind (IsSteady-query (begin j)) (λ _.
    IsSteady-bind (IsSteady-query (delete_blobs j age)) (λ _.
      IsSteady-bind (IsSteady-query (delete_results j))
        (λ _. IsSteady-bind (IsSteady-query (delete_manifests j age)) (λ _. IsSteady-pure _))))

-- The operations that write.
pub data Write : Type 0 where
  register : Text → Digest → PutOutcome → Write
  forget : Text → Digest → Write
  touch : Text → List Digest → Write
  put_result : Text → Digest → ActionResult → Write
  put_manifest : Text → Digest → Option Text → Text → Manifest → Write
  sweep_days : ℕ → Write

-- An operation was refused with this fault, and left this behind.
unfoldable pub Fails : {A : Type 0} → Access Postgres A → Postgres → Fault → Postgres → Type 0
Fails op pg e pg' = op pg ≡ (err e, pg')

unfoldable pub WriteFails : Jsonb → Write → Postgres → Fault → Postgres → Type 0
unfolding Fails
WriteFails j (register n d stored) = Fails (register_blob n d stored)
WriteFails j (forget n d) = Fails (forget_blob n d)
WriteFails j (touch n ds) = Fails (touch_blobs n ds)
WriteFails j (put_result n a r) = Fails (commit j n a r)
WriteFails j (put_manifest n k expected etag manifest) =
    Fails (commit_manifest j n k expected etag manifest)
WriteFails j (sweep_days days) = Fails (sweep j days)

-- The tables that a write leaves.
unfoldable pub left_by : Jsonb → Write → Postgres → Database
left_by j (register n d stored) pg = (register_blob n d stored pg).1.database
left_by j (forget n d) pg = (forget_blob n d pg).1.database
left_by j (touch n ds) pg = (touch_blobs n ds pg).1.database
left_by j (put_result n a r) pg = (commit j n a r pg).1.database
left_by j (put_manifest n k expected etag manifest) pg =
    (commit_manifest j n k expected etag manifest pg).1.database
left_by j (sweep_days days) pg = (sweep j days pg).1.database

IsAtomic-Fails :
    {A : Type 0} {op : Access Postgres A} (pg pg' : Postgres) (e : Fault)
    → IsAtomic op
    → op pg ≡ (err e, pg')
    → (pg'.database ≡ pg.database) ⊎ (pg'.database ≡ (op (steady pg)).1.database)
IsAtomic-Fails {op = op} pg pg' e atomic h =
    let left : (op pg).1.database ≡ pg'.database = ap (λ r. r.1.database) h in
    elim (atomic.leaves pg) [ inl same ↦ inl (sym left ∙ same) | inr done ↦ inr (sym left ∙ done) ]

-- A write to Postgres that answers with an error has changed no table, or has left all of them as
-- it leaves them where the pool and the network fail nothing; never a part of it. So it is whatever
-- fails the write, a constraint, a row that cannot be read, or the pool or the network at any of its
-- statements, before the server has run the statement or after, COMMIT included.
pub WriteFails-database :
    (j : Jsonb) (w : Write) (pg pg' : Postgres) (e : Fault)
    → WriteFails j w pg e pg'
    → (pg'.database ≡ pg.database) ⊎ (pg'.database ≡ left_by j w (steady pg))
unfolding WriteFails Fails left_by register_blob forget_blob sweep
WriteFails-database j (register n d stored) pg pg' e h =
    IsAtomic-Fails pg pg' e (IsAtomic-query (register_statement (n, d) stored)) h
WriteFails-database j (forget n d) pg pg' e h =
    IsAtomic-Fails pg pg' e (IsAtomic-query (forget_statement (n, d))) h
WriteFails-database j (touch n ds) pg pg' e h =
    IsAtomic-Fails pg pg' e (touch_blobs-IsAtomic n ds) h
WriteFails-database j (put_result n a r) pg pg' e h =
    IsAtomic-Fails pg pg' e (commit-IsAtomic j n a r) h
WriteFails-database j (put_manifest n k expected etag manifest) pg pg' e h =
    IsAtomic-Fails pg pg' e (commit_manifest-IsAtomic j n k expected etag manifest) h
WriteFails-database j (sweep_days days) pg pg' e h =
    IsAtomic-Fails pg pg' e
      (transaction-IsAtomic j (statements j (age_of days)) (statements-IsSteady j (age_of days))) h
