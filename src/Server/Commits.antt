-- ===== src/Server/Commits.antt =====
-- Commits over HTTP: `put_action_result` of src/server.rs.
pub mod Reading
pub mod Accepted
pub mod Publish
use mr_boxington_cache.Prelude.{
  ℕ, ◌+◌, Bool, true, false, not, ◌&&◌, List, [], ◌∷◌, ◌++◌, Option, none, some, Result, ok, err,
  nat_beq, if◌then◌else◌,
}
use mr_boxington_cache.Prelude.Bytes.{Text, text}
use mr_boxington_cache.Prelude.Equality.{◌==◌}
use mr_boxington_cache.Protocol.{Digest, digest_eq}
use mr_boxington_cache.Metadata.{ActionResult, CommitOutcome}
use mr_boxington_cache.Auth.{Headers, write, authorize}
use mr_boxington_cache.Server.Errors.{ApiError, bad_request, conflict}
use mr_boxington_cache.Server.Digests.{map_err, parse_action_digest}
use mr_boxington_cache.Server.Preconditions.{require_immutable_precondition}
use mr_boxington_cache.Server.Service.{AppState, Config}
use mr_boxington_cache.Server.Serde.{Serde}
use mr_boxington_cache.Server.Tree.{Ended, refused, validate_tree}
use mr_boxington_cache.Server.Descriptors.{
  ActionKind, validate_action_result_shape, validate_action_descriptor,
}
use mr_boxington_cache.Server.ClientMetadata.{validate_client_metadata}
use mr_boxington_cache.Server.Handler.{
  Steps, Handler, pure, fail, lift, require, modify, on_metadata, ◌>>=◌, ◌>>◌,
}

-- Steps that need no fuel.
abbrev pub refusing : {S A : Type 0} → Handler S A → Steps Ended S A
refusing steps s = (map_err refused (steps s).0, (steps s).1)

module _ {M B S : Type 0} (c : Config M B S) where
  -- `if let Some(digest) = ..`
  abbrev pub where_some :
      {E : Type 0}
      → Option Digest
      → (Digest → Steps E (AppState M B S) (Unit {0}))
      → Steps E (AppState M B S) (Unit {0})
  where_some none check = pure tt
  where_some (some digest) check = check digest

  -- The status of a commit's outcome.
  unfoldable pub commit_status : CommitOutcome → Handler (AppState M B S) ℕ
  commit_status CommitOutcome.created = pure 201
  commit_status CommitOutcome.already_exists = pure 204
  commit_status CommitOutcome.conflict =
      fail (conflict (text "an immutable action result already exists"))

  unfoldable pub commit_result : Text → Digest → ActionResult → Handler (AppState M B S) ℕ
  unfolding commit_status
  commit_result namespace action result = do
    outcome ← on_metadata (c.store.commit namespace action result)
    modify (λ s. record s { action_commits = s.action_commits + 1 })
    commit_status outcome

module _ {M B S : Type 0} (c : Config M B S) (serde : Serde) where
  -- What is checked before the output tree.
  unfoldable pub checked :
      Headers → Text → Text → ℕ → ActionResult → Handler (AppState M B S) (Text × Digest)
  unfolding authorize require_immutable_precondition parse_action_digest validate_action_descriptor
      validate_action_result_shape validate_client_metadata
  checked headers algorithm hash size result = do
    namespace ← lift (authorize c.tokens c.auth headers write)
    lift (require_immutable_precondition headers)
    action ← lift (parse_action_digest c.protocol algorithm hash size)
    require (nat_beq result.version 1 && result.action == action)
        (bad_request (text "action result does not match request"))
    action_kind ← validate_action_descriptor c serde namespace action
    lift (validate_action_result_shape result action_kind)
    where_some c result.metadata
        λ digest. validate_client_metadata c serde namespace digest action_kind
    pure (namespace, action)

  -- The handler, with fuel for the walk over the output tree.
  unfoldable pub put_action_result :
      ℕ → Headers → Text → Text → ℕ → ActionResult → Steps Ended (AppState M B S) ℕ
  unfolding checked validate_tree commit_result
  put_action_result fuel headers algorithm hash size result = do
    request ← refusing (checked headers algorithm hash size result)
    where_some c result.output_root λ root. validate_tree c serde request.0 fuel root
    refusing (commit_result c request.0 request.1 result)
