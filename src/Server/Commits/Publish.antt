-- ===== src/Server/Commits/Publish.antt =====
-- A committed result is served (src/server.rs, with the store of src/metadata/memory.rs).
use mr_boxington_cache.Prelude.{ℕ, ◌≡◌, ◌≢◌, refl, ap, ◌∙◌, List, some, ok}
use mr_boxington_cache.Prelude.Bytes.{Text}
use mr_boxington_cache.Protocol.{Digest}
use mr_boxington_cache.Metadata.{ActionResult, CommitOutcome}
use mr_boxington_cache.Metadata.Memory.{Json, IsJson, MemoryMetadata, visible_blobs, get, commit}
use mr_boxington_cache.Metadata.Memory.Laws.{Op, run, get-run-commit}
use mr_boxington_cache.Auth.{Headers, read, write, authorize}
use mr_boxington_cache.Server.Digests.{parse_action_digest}
use mr_boxington_cache.Server.Service.{AppState, Config}
use mr_boxington_cache.Server.Serde.{Serde}
use mr_boxington_cache.Server.Lookups.{asked_action, get_action_result}
use mr_boxington_cache.Server.Lookups.Missing.{in_memory}
use mr_boxington_cache.Server.ReadOnly.{IsReadOnly}
use mr_boxington_cache.Server.Commits.{put_action_result}
use mr_boxington_cache.Server.Commits.Accepted.{Status, put_action_result-IsAccepted}

module _ {B S : Type 0} (j : Json) (c : Config MemoryMetadata B S) where
  pub in_memory-IsReadOnly :
      ((digest : Digest) (b : B) → (c.objects.get digest b).1 ≡ b) → IsReadOnly (in_memory j c)
  unfolding visible_blobs
  in_memory-IsReadOnly held = record { visible_blobs = λ namespace digests m. refl; get = held }

  get_action_result-found :
      (readers : Headers) (algorithm hash : Text) (size : ℕ) (namespace : Text) (action : Digest)
      (result : ActionResult) (s : AppState MemoryMetadata B S)
      → authorize c.tokens c.auth readers read ≡ ok namespace
      → parse_action_digest c.protocol algorithm hash size ≡ ok action
      → (get j namespace action s.metadata).0 ≡ ok (some result)
      → (get_action_result (in_memory j c) readers algorithm hash size s).0 ≡ ok result
  unfolding get_action_result asked_action
  get_action_result-found readers algorithm hash size namespace action result s may parsed found =
      rw (get_action_result, asked_action, may, parsed, found)

-- What counts as an answer other than a conflict.
no_conflict :
    (outcome : CommitOutcome) (status : ℕ)
    → Status outcome status
    → outcome ≢ CommitOutcome.conflict
unfolding Status
no_conflict CommitOutcome.created status h e = absurd cc
no_conflict CommitOutcome.already_exists status h e = absurd cc
no_conflict CommitOutcome.conflict status h e = absurd h

-- With the store in memory, over an object store whose lookups change nothing, and where an encoded
-- result is read back as itself: after `put_action_result` has answered with success, whatever the
-- store is asked to do in between, `get_action_result` for the same digest answers with that very
-- result to each request that may read the namespace.
pub put_action_result-get_action_result :
    {B S : Type 0} (j : Json) (c : Config MemoryMetadata B S) (serde : Serde) (fuel : ℕ)
    (headers readers : Headers) (algorithm hash : Text) (size : ℕ) (result : ActionResult)
    (s s' later : AppState MemoryMetadata B S) (status : ℕ) (ops : List Op)
    → IsJson j
    → ((digest : Digest) (b : B) → (c.objects.get digest b).1 ≡ b)
    → put_action_result (in_memory j c) serde fuel headers algorithm hash size result s
      ≡ (ok status, s')
    → authorize c.tokens c.auth readers read ≡ authorize c.tokens c.auth headers write
    → later.metadata ≡ run j ops s'.metadata
    → (get_action_result (in_memory j c) readers algorithm hash size later).0 ≡ ok result
put_action_result-get_action_result {B} {S} j c serde fuel headers readers algorithm hash size
      result s s' later status ops laws held e same_namespace since =
    let accepted =
      put_action_result-IsAccepted (in_memory j c) serde fuel headers algorithm hash size result s
        s' status (in_memory-IsReadOnly j c held) e in
    let n = accepted.request.0 in
    let a = accepted.request.1 in
    let kept =
      get-run-commit j laws n a result s.metadata accepted.outcome ops accepted.committed
        (no_conflict accepted.outcome status accepted.answered) in
    let there : later.metadata ≡ run j ops (commit j n a result s.metadata).1 =
      since ∙ ap (λ (t : AppState MemoryMetadata B S). run j ops t.metadata) accepted.left in
    get_action_result-found j c readers algorithm hash size n a result later
      (same_namespace ∙ accepted.checks.authorized) accepted.checks.parsed
      (ap (λ m. (get j n a m).0) there ∙ kept)
