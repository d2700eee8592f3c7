-- ===== src/Tests/Server/Samples.antt =====
-- What the handlers of src/server.rs call, in memory.
use mr_boxington_cache.Prelude.{
  ℕ, ◌+◌, ◌-◌, ◌<◌, ◌≡◌, refl, true, List, [], ◌∷◌, ◌++◌, Option, none, some, ok, err, leb, take,
  length, arith, if◌then◌else◌,
}
use mr_boxington_cache.Prelude.Bytes.{Text, text}
use mr_boxington_cache.Prelude.Equality.{◌==◌, nat_eq, list_eq}
use mr_boxington_cache.Prelude.Maps
use mr_boxington_cache.Protocol.{Digest, digest_eq}
use mr_boxington_cache.Protocol.Samples.{sample}
use mr_boxington_cache.Metadata.{PutOutcome}
use mr_boxington_cache.Metadata.Memory.{Json, MemoryMetadata, empty, memory_store}
use mr_boxington_cache.Auth.{Headers}
use mr_boxington_cache.Server.Errors.{pool_timed_out}
use mr_boxington_cache.Server.Spool.{Semaphores, IsSemaphore}
use mr_boxington_cache.Server.Pending.{default}
use mr_boxington_cache.Server.Service.{AppState, Blob, BlobStore, Config}

abbrev pub counter : Semaphores ℕ
counter = record {
  max_permits = 1000000;
  create = λ n. n;
  available = λ s. s;
  try_acquire_many = λ n s. if leb n s then some (s - n) else none;
  release = λ n s. s + n;
}

counter_acquired : (n s s' : ℕ) → (if leb n s then some (s - n) else none) ≡ some s' → s' + n ≡ s
counter_acquired n s s' e = ground arith

counter_refused :
    (n s : ℕ) → ◌≡◌ {A = Option ℕ} (if leb n s then some (s - n) else none) none → s < n
counter_refused n s e = ground arith

pub counter-IsSemaphore : IsSemaphore counter
counter-IsSemaphore = record {
  available-create = λ n h. refl;
  acquired = counter_acquired;
  refused = counter_refused;
  available-release = λ n s. refl;
}

abbrev pub json : Json
json = record { to_vec = λ r. ok []; from_slice = λ b. err pool_timed_out }

-- The contents by their digests.
abbrev pub Objects : Type 0
Objects = List (Digest × List ℕ)

abbrev found : Option (List ℕ) → Option Blob
found none = none
found (some content) = some (record { size = length content; stream = ok content ∷ [] })

abbrev pub objects : BlobStore Objects
objects = record {
  get = λ digest held. (ok (found (Maps.lookup digest held)), held);
  put = λ digest content held. (ok PutOutcome.created, Maps.insert digest content held);
}

abbrev zeros : List ℕ
zeros =
    0 ∷ 0 ∷ 0 ∷ 0 ∷ 0 ∷ 0 ∷ 0 ∷ 0 ∷ 0 ∷ 0 ∷ 0 ∷ 0 ∷ 0 ∷ 0 ∷ 0 ∷ 0 ∷ 0 ∷ 0 ∷ 0 ∷ 0 ∷ 0 ∷ 0 ∷ 0 ∷ 0
    ∷ 0 ∷ 0 ∷ 0 ∷ 0 ∷ 0 ∷ 0 ∷ 0 ∷ 0 ∷ []

-- A service that is open to everyone; its hash is the content, cut or padded to 32 bytes.
abbrev pub config : Config MemoryMetadata Objects ℕ
config = record {
  protocol = sample;
  tokens = record { decode_claims = λ t. none; verify = λ p t. none };
  auth = record { grants = []; oidc = []; allow_anonymous = true; anonymous_read_namespaces = [] };
  store = memory_store json;
  objects = objects;
  semaphores = counter;
  hash = λ kind bytes. take 32 (bytes ++ zeros);
  disk = record { create = ok tt; write = λ file chunk. ok tt; flush = λ file. ok tt };
  max_blob_bytes = 1000;
}

abbrev pub state : AppState MemoryMetadata Objects ℕ
state = record {
  metadata = empty;
  blobs = [];
  spool = some 4;
  access = default;
  blob_hits = 0;
  blob_uploads = 0;
  action_hits = 0;
  action_misses = 0;
  action_commits = 0;
}

abbrev pub hash : Text
hash = text "6162630000000000000000000000000000000000000000000000000000000000"

abbrev pub digest : Digest
digest = record { algorithm = text "blake3"; hash = hash; size = 3 }

-- A request for the namespace `team`.
abbrev pub headers : Headers
headers name =
    if name == text "mbx-cache-protocol"
    then some (text "1")
    else if name == text "mbx-cache-namespace"
    then some (text "team")
    else if name == text "if-none-match"
    then some (text "*")
    else none
