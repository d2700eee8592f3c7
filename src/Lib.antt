-- ===== src/Lib.antt =====
-- mbx-cache: the service behind a shared build cache. Clients upload content-addressed blobs and
-- the results of actions, and look both up, by namespace.
--
-- Parts and files. A path in parentheses is the code that a file models.
--   Prelude    shared names, lists, maps, sets, bytes, results.
--   Protocol   the protocol crate and the hex crate as a record of constants and functions with
--              their documented laws; that code is no part of the repository.
--   Json       JSON values, as serde_json hands them over.
--   Pack       (src/pack.rs) the reader of uploaded packs. `push` is the loop of `turn`, one turn
--              for each match of the source's loop, on fuel: one turn for each byte of the chunk
--              and one more. Pack/Invariance proves that this is enough. Pack/Frames builds packs.
--   Metadata   (src/metadata/mod.rs) the trait MetadataStore as a record of operations on a state;
--              Metadata/Memory (src/metadata/memory.rs) its implementation in memory;
--              Metadata/Postgres (src/metadata/postgres.rs, migrations) the tables as lists of rows
--              and each statement as a step that the pool or the network may fail, before the
--              server runs it or after, with Results
--              (action results and manifests) and Sweep below it. BIGINT stands for its 64 bits.
--              What serde_json, JSONB and its casts do is the record Jsonb.
--   Auth       (src/auth.rs) `authorize` and all that it decides. Base64, and the verification of
--              a token by its provider, are arguments (`Tokens`).
--   Model      (src/model.rs) the records of actions and their validations, by adapter.
--   Server     (src/server.rs) Errors: ApiError. Digests: digests in requests, frame headers.
--              Spool: SpoolBudget over a semaphore, which is a record with laws. Pending:
--              PendingAccess. Preconditions: If-None-Match and If-Match. Entries: directory
--              objects. Service: AppState, BlobStore (src/storage/mod.rs). Blobs: put_blob and
--              get_blob. Lookups: missing_blobs, batch_action_results, get_action_result.
--              Handler: state and errors as one monad. Serde: serde_json and the protocol crate's
--              validations, a record of functions. Objects: read_canonical_object. Tree:
--              validate_tree, a loop on fuel, with the children Walks (its stack), Total (fuel
--              enough on every store), Frames and Order (what it has found). Descriptors:
--              validate_action_descriptor and the actions. ClientMetadata: the metadata records.
--              Commits: put_action_result. Manifests: get_action_manifest, put_action_manifest.
--              ReadOnly: stores whose lookups change nothing. Frames: PackFrame, one blob of an
--              uploaded pack.
--   Tests      the theorems at concrete inputs.
--
-- How the parts meet: a handler authorizes its request (Auth), reads digests (Digests), holds room
-- in the spool (Spool), and goes through the records MetadataStore and BlobStore; its state is
-- `AppState`, passed in and given back. Errors are values of `Result`; a handler gives its state
-- back on every branch. What shares the state is locked for the length of one step.
--
-- Numbers are natural numbers; the counters of the pack reader wrap around at 2^64 as written, and
-- theorems about it ask that limits and body stay below that. Text is a list of bytes. Hash maps
-- are association lists, whose order stands for any order.
--
-- Not modelled: the loops of pack uploads and downloads over HTTP, the Postgres store's connection,
-- migrations and pool statistics, the object stores, metrics, configuration and start-up.
pub mod Prelude
pub mod Protocol
pub mod Json
pub mod Metadata
pub mod Auth
pub mod Model
pub mod Pack
pub mod Server
mod Tests
