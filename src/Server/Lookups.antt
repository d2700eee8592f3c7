-- ===== src/Server/Lookups.antt =====
-- Lookups over HTTP: `missing_blobs`, `get_action_result`, `batch_action_results`, `require_blob`
-- and `required_u64_header` of src/server.rs.
pub mod Missing
use mr_boxington_cache.Prelude.{
  ℕ, zero, suc, ◌+◌, ◌-◌, ◌*◌, Bool, true, false, not, ◌&&◌, List, [], ◌∷◌, ◌++◌, Option, none,
  some, Result, ok, err, ◌>>=◌, ◌>>◌, ensure, ok_or, keep, leb, ltb, nat_beq, length, if◌then◌else◌,
}
use mr_boxington_cache.Prelude.Bytes.{Text, text, is_digit}
use mr_boxington_cache.Prelude.Equality.{contains}
use mr_boxington_cache.Protocol.{Digest, digest_eq, u64_mod}
use mr_boxington_cache.Metadata.{ActionResult, blob_visible}
use mr_boxington_cache.Auth.{Headers, read, authorize}
use mr_boxington_cache.Server.Errors.{ApiError, bad_request, not_found, internal, unprocessable}
use mr_boxington_cache.Server.Digests.{validate_digest, validate_action_digest, parse_action_digest}
use mr_boxington_cache.Server.Service.{AppState, Config}

-- The digits of a number, where it stays below 2^64.
unfoldable pub parse_digits : ℕ → Text → Option ℕ
parse_digits n [] = some n
parse_digits n (b ∷ bs) =
    let rest = parse_digits (n * 10 + (b - b'0')) bs in
    if is_digit b && ltb (n * 10 + (b - b'0')) u64_mod then rest else none

unfoldable pub parse_some : Text → Option ℕ
unfolding parse_digits
parse_some [] = none
parse_some (b ∷ bs) = parse_digits 0 (b ∷ bs)

-- `str::parse::<u64>`: digits, one at least, behind a plus sign or not.
unfoldable pub parse_u64 : Text → Option ℕ
unfolding parse_some
parse_u64 [] = none
parse_u64 (b ∷ bs) = if nat_beq b b'+' then parse_some bs else parse_some (b ∷ bs)

unfoldable pub required_u64_header : Headers → Text → Result ApiError ℕ
unfolding parse_u64
required_u64_header headers name =
    ok_or (elim (headers name) [ none ↦ none | some value ↦ parse_u64 value ])
      (bad_request (name ++ text " must be an unsigned integer"))

module _ {M B S : Type 0} (c : Config M B S) where
  unfoldable pub validate_digests : List Digest → Result ApiError (Unit {0})
  unfolding validate_digest
  validate_digests [] = ok tt
  validate_digests (d ∷ ds) = validate_digest c.protocol d >> validate_digests ds

  -- What a request must show before the store is asked.
  unfoldable pub asked : Headers → List Digest → Result ApiError Text
  unfolding authorize validate_digests
  asked headers digests = do
    namespace ← authorize c.tokens c.auth headers read
    ensure (leb (length digests) c.protocol.max_batch_items)
        (bad_request (text "at most 10000 digests may be checked"))
    validate_digests digests
    ok namespace

  unfoldable pub missing_blobs :
      Headers → List Digest → AppState M B S → Result ApiError (List Digest) × AppState M B S
  unfolding asked
  missing_blobs headers digests s = elim (asked headers digests) [
    | err e ↦ (err e, s)
    | ok namespace ↦
        let (found, metadata) = c.store.visible_blobs namespace digests s.metadata in
        elim found [
          | err e ↦ (err (internal e), record s { metadata = metadata })
          | ok visible ↦ (
            ok (keep (λ digest. not (contains visible digest)) digests),
            record s { metadata = metadata },
          )
        ]
  ]

  -- The actions of a batch, each once, in the order of the request.
  unfoldable pub requested_actions : List Digest → List Digest → Result ApiError (List Digest)
  unfolding validate_action_digest
  requested_actions seen [] = ok []
  requested_actions seen (d ∷ ds) = do
    digest ← validate_action_digest c.protocol d
    if contains seen digest
        then requested_actions seen ds
        else requested_actions (digest ∷ seen) ds >>= λ rest. ok (digest ∷ rest)

  unfoldable pub asked_actions : Headers → List Digest → Result ApiError (Text × List Digest)
  unfolding authorize requested_actions
  asked_actions headers digests = do
    namespace ← authorize c.tokens c.auth headers read
    ensure (leb (length digests) c.protocol.max_batch_items)
        (bad_request (text "batch exceeds the supported size"))
    actions ← requested_actions [] digests
    ok (namespace, actions)

  unfoldable pub batch_action_results :
      Headers → List Digest → AppState M B S → Result ApiError (List ActionResult) × AppState M B S
  unfolding asked_actions
  batch_action_results headers digests s = elim (asked_actions headers digests) [
    | err e ↦ (err e, s)
    | ok (namespace, actions) ↦
        let (found, metadata) = c.store.get_batch namespace actions s.metadata in
        elim found [
          | err e ↦ (err (internal e), record s { metadata = metadata })
          | ok results ↦ (
            ok results,
            record s {
              metadata = metadata;
              action_hits = s.action_hits + length results;
              action_misses = s.action_misses + (length actions - length results);
            },
          )
        ]
  ]

  unfoldable pub asked_action : Headers → Text → Text → ℕ → Result ApiError (Text × Digest)
  unfolding authorize parse_action_digest
  asked_action headers algorithm hash size = do
    namespace ← authorize c.tokens c.auth headers read
    action ← parse_action_digest c.protocol algorithm hash size
    ok (namespace, action)

  unfoldable pub get_action_result :
      Headers → Text → Text → ℕ → AppState M B S → Result ApiError ActionResult × AppState M B S
  unfolding asked_action
  get_action_result headers algorithm hash size s =
      elim (asked_action headers algorithm hash size) [
        | err e ↦ (err e, s)
        | ok (namespace, action) ↦
            let (found, metadata) = c.store.get namespace action s.metadata in
            elim found [
              | err e ↦ (err (internal e), record s { metadata = metadata })
              | ok (some result) ↦
                  (ok result, record s { metadata = metadata; action_hits = s.action_hits + 1 })
              | ok none ↦ (
                err (not_found (text "action result not found")),
                record s { metadata = metadata; action_misses = s.action_misses + 1 },
              )
            ]
      ]

  seen_blob : Text → Result ApiError Bool → Result ApiError (Unit {0})
  seen_blob label (err e) = err e
  seen_blob label (ok true) = ok tt
  seen_blob label (ok false) = err (unprocessable (label ++ text " is missing"))

  -- A blob that a client's record refers to must be visible.
  unfoldable pub require_blob :
      Text → Digest → Text → AppState M B S → Result ApiError (Unit {0}) × AppState M B S
  unfolding validate_digest blob_visible seen_blob
  require_blob namespace digest label s = elim (validate_digest c.protocol digest) [
    | err e ↦ (err e, s)
    | ok _ ↦
        let (visible, metadata) = blob_visible c.store namespace digest s.metadata in
        (
          elim visible [ err e ↦ err (internal e) | ok seen ↦ seen_blob label (ok seen) ],
          record s { metadata = metadata },
        )
  ]
