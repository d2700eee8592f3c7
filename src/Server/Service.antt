-- ===== src/Server/Service.antt =====
-- The state that handlers share, `AppState` of src/server.rs, and what they call: the object store
-- (`BlobStore` of src/storage/mod.rs), the hashers, and the disk that an upload is spooled on.
use mr_boxington_cache.Prelude.{ℕ, List, Option, Result}
use mr_boxington_cache.Protocol.{Protocol, Digest, Algorithm}
use mr_boxington_cache.Metadata.{MetadataStore, PutOutcome, Access}
use mr_boxington_cache.Auth.{Authorizer, Tokens}
use mr_boxington_cache.Server.Errors.{Fault}
use mr_boxington_cache.Server.Spool.{Semaphores}
use mr_boxington_cache.Server.Pending.{Pending}

-- A stored blob: its size and the chunks of its stream, one of which may fail.
pub record Blob : Type 0 where
  pub size : ℕ
  pub stream : List (Result Fault (List ℕ))

-- The trait `BlobStore`; `put` takes what the spool file holds.
pub record BlobStore (B : Type 0) : Type 0 where
  pub get : Digest → Access B (Option Blob)
  pub put : Digest → List ℕ → Access B PutOutcome

-- The spool file's creation, a write to what it holds, and its flush: each may fail.
pub record Disk : Type 0 where
  pub create : Result Fault (Unit {0})
  pub write : List ℕ → List ℕ → Result Fault (Unit {0})
  pub flush : List ℕ → Result Fault (Unit {0})

-- What does not change while the service runs.
pub record Config (M B S : Type 0) : Type 0 where
  pub protocol : Protocol
  pub tokens : Tokens
  pub auth : Authorizer
  pub store : MetadataStore M
  pub objects : BlobStore B
  pub semaphores : Semaphores S
  pub hash : Algorithm → List ℕ → List ℕ
  pub disk : Disk
  pub max_blob_bytes : ℕ

-- The state, with the counters that the modelled handlers change.
pub record AppState (M B S : Type 0) : Type 0 where
  pub metadata : M
  pub blobs : B
  pub spool : Option S
  pub access : Pending
  pub blob_hits : ℕ
  pub blob_uploads : ℕ
  pub action_hits : ℕ
  pub action_misses : ℕ
  pub action_commits : ℕ
