-- ===== src/Tests/Postgres.antt =====
-- The Postgres tables of src/metadata/postgres.rs with a few rows.
use mr_boxington_cache.Prelude.{
  ◌≡◌, ◌⊎◌, refl, true, List, [], ◌∷◌, none, some, ok, err, if◌then◌else◌,
}
use mr_boxington_cache.Prelude.Bytes.{text}
use mr_boxington_cache.Prelude.Equality.{◌==◌, nat_eq, list_eq}
use mr_boxington_cache.Json.{Value, string, object, end, field, get, as_str}
use mr_boxington_cache.Protocol.{Digest}
use mr_boxington_cache.Server.Errors.{pool_timed_out}
use mr_boxington_cache.Metadata.{PutOutcome}
use mr_boxington_cache.Metadata.Memory as Memory
use mr_boxington_cache.Metadata.Postgres.{
  Postgres, unanswered, has_blob, next_outage, visible_blobs,
}
use mr_boxington_cache.Metadata.Postgres.Results.{Jsonb}
use mr_boxington_cache.Metadata.Postgres.Sweep.{SweepOutcome, age_of, sweep}
use mr_boxington_cache.Metadata.Postgres.Swept.{IsSwept, sweep-IsSwept}
use mr_boxington_cache.Metadata.Postgres.Atomic.{
  Write, sweep_days, WriteFails, left_by, WriteFails-database,
}
use mr_boxington_cache.Metadata.Postgres.Queries.{steady}
use mr_boxington_cache.Metadata.Postgres.Refines.{
  Agrees, BlobOp, register, forget, all_in_postgres, all_in_memory, visible_blobs-refines,
}
use mr_boxington_cache.Tests.Server.Samples.{digest}
use mr_boxington_cache.Tests.Server.Records.{with_state, result}

abbrev jsonb : Jsonb
jsonb = record {
  to_value = λ r. ok (string (text "result"));
  from_value = λ v. ok result;
  manifest_to_value = λ m. ok (string (text "manifest"));
  manifest_from_value = λ v. err pool_timed_out;
  value_eq = λ a b. true;
  to_bigint = λ t. if t == text "3" then ok 3 else err pool_timed_out;
  to_text = as_str;
}

-- A result that names the digest, with its size as a text.
abbrev naming : Value
naming = object (
    field (text "output_root")
      (object (
        field (text "algorithm") (string digest.algorithm)
          (field (text "hash") (string digest.hash) (field (text "size") (string (text "3")) end))))
      end)

abbrev other : Digest
other = record digest { size = 4 }

-- Two days after the digest was put, and a minute after the other.
abbrev old : Postgres
old = record {
  database = record {
    namespace_blobs =
        record { key = (text "team", digest); created_at = 0; last_accessed_at = 0 }
        ∷ record { key = (text "team", other); created_at = 172740; last_accessed_at = 172740 }
        ∷ [];
    action_results = record { key = (text "team", other); result = naming } ∷ [];
    action_manifests = [];
  };
  now = 172800;
  outages = [];
}

abbrev outcome : SweepOutcome
outcome = record { blobs = 1; action_results = 1; manifests = 0 }

swept : (sweep jsonb 1 old).0 ≡ ok outcome
unfolding sweep get as_str
swept = refl

sweep-IsSwept_example :
    IsSwept jsonb 172800 (age_of 1) old.database (sweep jsonb 1 old).1.database outcome
sweep-IsSwept_example =
    sweep-IsSwept jsonb 1 old (sweep jsonb 1 old).1 outcome
      (with_state (sweep jsonb 1 old) outcome swept)

abbrev empty : Postgres
empty = record {
  database = record { namespace_blobs = []; action_results = []; action_manifests = [] };
  now = 0;
  outages = [];
}

nothing-Agrees : Agrees [] []
unfolding Agrees has_blob
nothing-Agrees = (λ key. refl, λ key h. absurd cc)

abbrev ops : List BlobOp
ops =
    register (text "team") digest PutOutcome.created
    ∷ register (text "team") other PutOutcome.created
    ∷ forget (text "team") other
    ∷ []

done : (all_in_postgres ops empty).0 ≡ ok tt
unfolding all_in_postgres
done = refl

up : next_outage (all_in_postgres ops empty).1.outages ≡ none
unfolding all_in_postgres
up = refl

visible_blobs-refines_example :
    (visible_blobs (text "team") (other ∷ digest ∷ []) (all_in_postgres ops empty).1).0
    ≡ (Memory.visible_blobs (text "team") (other ∷ digest ∷ []) (all_in_memory ops Memory.empty)).0
visible_blobs-refines_example =
    visible_blobs-refines ops (text "team") (other ∷ digest ∷ []) empty
      (all_in_postgres ops empty).1 Memory.empty nothing-Agrees
      (with_state (all_in_postgres ops empty) tt done) up

-- The answer to COMMIT is lost: the sweep fails, and has deleted what it deletes.
abbrev busy : Postgres
busy = record old { outages = none ∷ none ∷ none ∷ none ∷ some (unanswered pool_timed_out) ∷ [] }

abbrev write : Write
write = sweep_days 1

refused : WriteFails jsonb write busy pool_timed_out (sweep jsonb 1 busy).1
unfolding WriteFails sweep get as_str
refused = refl

WriteFails-database_example :
    ((sweep jsonb 1 busy).1.database ≡ busy.database)
    ⊎ ((sweep jsonb 1 busy).1.database ≡ left_by jsonb write (steady busy))
WriteFails-database_example =
    WriteFails-database jsonb write busy (sweep jsonb 1 busy).1 pool_timed_out refused
