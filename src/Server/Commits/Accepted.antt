-- ===== src/Server/Commits/Accepted.antt =====
-- What a result that `put_action_result` (src/server.rs) accepts has shown.
use mr_boxington_cache.Prelude.{
  ℕ, ◌+◌, ◌≡◌, refl, sym, ap, subst, ◌∙◌, true, ◌&&◌, Option, none, some, ok, nat_beq, arith,
  err_not_ok, ok_inj,
}
use mr_boxington_cache.Prelude.Bytes.{Text}
use mr_boxington_cache.Prelude.Equality.{◌==◌, eq_iff}
use mr_boxington_cache.Protocol.{Digest, digest_eq}
use mr_boxington_cache.Metadata.{ActionResult, CommitOutcome}
use mr_boxington_cache.Auth.{Headers, write, authorize}
use mr_boxington_cache.Server.Errors.{internal}
use mr_boxington_cache.Server.Digests.{map_err-eq-ok, parse_action_digest}
use mr_boxington_cache.Server.Preconditions.{require_immutable_precondition}
use mr_boxington_cache.Server.Service.{AppState, Config}
use mr_boxington_cache.Server.Serde.{Serde}
use mr_boxington_cache.Server.Tree.{refused, validate_tree}
use mr_boxington_cache.Server.Tree.Order.{validate_tree-Ordered}
use mr_boxington_cache.Server.Descriptors.{
  ActionKind, validate_action_result_shape, validate_action_descriptor,
}
use mr_boxington_cache.Server.ClientMetadata.{validate_client_metadata}
use mr_boxington_cache.Server.ReadOnly.{IsReadOnly}
use mr_boxington_cache.Server.Handler.{
  Steps, Handler, on_metadata, continue-eq-ok, require-then, lift-then, pure-eq-ok,
}
use mr_boxington_cache.Server.Commits.{
  refusing, where_some, commit_status, commit_result, checked, put_action_result,
}
use mr_boxington_cache.Server.Commits.Reading.{
  Keeps-validate_action_descriptor, Keeps-validate_client_metadata,
}

-- The outcome and the status that tells it.
unfoldable pub Status : CommitOutcome → ℕ → Type 0
Status CommitOutcome.created status = status ≡ 201
Status CommitOutcome.already_exists status = status ≡ 204
Status CommitOutcome.conflict status = ⊥

module _ {M B S : Type 0} (c : Config M B S) (serde : Serde) (headers : Headers)
    (algorithm hash : Text) (size : ℕ) (result : ActionResult) (s : AppState M B S) where
  -- What is shown before the output tree is walked, for a namespace and an action.
  pub record IsChecked (request : Text × Digest) : Type 0 where
    pub kind : ActionKind
    -- The request may write, does not overwrite, and names the action that the result is for.
    pub authorized : authorize c.tokens c.auth headers write ≡ ok request.0
    pub immutable : require_immutable_precondition headers ≡ ok tt
    pub parsed : parse_action_digest c.protocol algorithm hash size ≡ ok request.1
    pub of_version : result.version ≡ 1
    pub of_action : result.action ≡ request.1
    -- The action's descriptor is stored and valid, and so is the metadata.
    pub descriptor : validate_action_descriptor c serde request.0 request.1 s ≡ (ok kind, s)
    pub shape : validate_action_result_shape result kind ≡ ok tt
    pub metadata :
        (digest : Digest)
        → result.metadata ≡ some digest
        → validate_client_metadata c serde request.0 digest kind s ≡ (ok tt, s)

  pub record IsAccepted (fuel : ℕ) (s' : AppState M B S) (status : ℕ) : Type 0 where
    pub request : Text × Digest
    pub checks : IsChecked request
    pub tree :
        (root : Digest)
        → result.output_root ≡ some root
        → validate_tree c serde request.0 fuel root s ≡ (ok tt, s)
    -- Only then is the store asked, and the commit counted.
    pub outcome : CommitOutcome
    pub committed : (c.store.commit request.0 request.1 result s.metadata).0 ≡ ok outcome
    pub answered : Status outcome status
    pub left : s' ≡ record s {
      metadata = (c.store.commit request.0 request.1 result s.metadata).1;
      action_commits = s.action_commits + 1;
    }

some_inj : {A : Type 0} {a b : A} → some a ≡ some b → a ≡ b
some_inj h = cc h

tested :
    (version : ℕ) (a b : Digest) → (nat_beq version 1 && a == b) ≡ true → (version ≡ 1) × (a ≡ b)
tested version a b h = (ground (arith, h), ground (arith, h, eq_iff a b))

module _ {M B S : Type 0} (c : Config M B S) where
  -- An optional check that has answered.
  where_some-ok :
      {E : Type 0} (digest : Option Digest) (check : Digest → Steps E (AppState M B S) (Unit {0}))
      (s s' : AppState M B S)
      → ((d : Digest) → digest ≡ some d → check d s ≡ (ok tt, s') → s ≡ s')
      → where_some c digest check s ≡ (ok tt, s')
      → (s ≡ s') × ((d : Digest) → digest ≡ some d → check d s ≡ (ok tt, s))
  where_some-ok none check s s' keeps e = (ap (λ r. r.1) e, λ d h. absurd cc)
  where_some-ok (some digest) check s s' keeps e =
      let same = keeps digest refl e in
      (same, λ d h. rw (sym (some_inj h)) (e ∙ ap (λ t. (ok tt, t)) (sym same)))

  module _ (only : IsReadOnly c) (serde : Serde) where
    checked-IsChecked :
        (headers : Headers) (algorithm hash : Text) (size : ℕ) (result : ActionResult)
        (request : Text × Digest) (s s' : AppState M B S)
        → checked c serde headers algorithm hash size result s ≡ (ok request, s')
        → (s ≡ s') × IsChecked c serde headers algorithm hash size result s request
    unfolding checked
    checked-IsChecked headers algorithm hash size result request s s' e =
        let (namespace, authorized, r1) =
          lift-then (authorize c.tokens c.auth headers write) _ s e in
        let (u, immutable, r2) = lift-then (require_immutable_precondition headers) _ s r1 in
        let (action, parsed, r3) =
          lift-then (parse_action_digest c.protocol algorithm hash size) _ s r2 in
        let (test, r4) =
          require-then (nat_beq result.version 1 && result.action == action) _ _ s r3 in
        let (of_version, of_action) = tested result.version result.action action test in
        let (kind, s1, described, r5) =
          continue-eq-ok _ (validate_action_descriptor c serde namespace action s) r4 in
        let same1 : s ≡ s1 =
          (Keeps-validate_action_descriptor c only serde namespace action).kept s s1 kind
            described in
        let (u, shape, r6) = lift-then (validate_action_result_shape result kind) _ s1 r5 in
        let (u, s2, described_too, r7) =
          continue-eq-ok _
            (where_some c result.metadata
              (λ digest. validate_client_metadata c serde namespace digest kind) s1)
            r6 in
        let (same2, metadata) =
          where_some-ok result.metadata
            (λ digest. validate_client_metadata c serde namespace digest kind) s1 s2
            (λ d h. (Keeps-validate_client_metadata c only serde namespace d kind).kept s1 s2 tt)
            described_too in
        let (same_request, same3) = pure-eq-ok r7 in
        (
          same1 ∙ same2 ∙ same3,
          subst (λ r. IsChecked c serde headers algorithm hash size result s r) same_request
              (record {
                kind = kind;
                authorized = authorized;
                immutable = immutable;
                parsed = parsed;
                of_version = of_version;
                of_action = of_action;
                descriptor = described ∙ ap (λ t. (ok kind, t)) (sym same1);
                shape = shape;
                metadata =
                    subst
                      (λ t.
                        (d : Digest)
                        → result.metadata ≡ some d
                        → validate_client_metadata c serde namespace d kind t ≡ (ok tt, t))
                      (sym same1) metadata;
              }),
        )

refusing-ok :
    {S A : Type 0} (steps : Handler S A) (s s' : S) (a : A)
    → refusing steps s ≡ (ok a, s')
    → steps s ≡ (ok a, s')
refusing-ok steps s s' a e =
    ap (λ r. (r, (steps s).1)) (map_err-eq-ok refused (steps s).0 a (ap (λ r. r.0) e))
    ∙ ap (λ t. (ok a, t)) (ap (λ r. r.1) e)

commit_status-Status :
    {M B S : Type 0} (c : Config M B S) (outcome : CommitOutcome) (status : ℕ)
    (s s' : AppState M B S)
    → commit_status c outcome s ≡ (ok status, s')
    → Status outcome status × (s ≡ s')
unfolding commit_status Status
commit_status-Status c CommitOutcome.created status s s' e =
    (sym (ok_inj (ap (λ r. r.0) e)), ap (λ r. r.1) e)
commit_status-Status c CommitOutcome.already_exists status s s' e =
    (sym (ok_inj (ap (λ r. r.0) e)), ap (λ r. r.1) e)
commit_status-Status c CommitOutcome.conflict status s s' e = absurd (err_not_ok (ap (λ r. r.0) e))

committed :
    {M B S : Type 0} (c : Config M B S) (namespace : Text) (action : Digest) (result : ActionResult)
    (status : ℕ) (s s' : AppState M B S)
    → commit_result c namespace action result s ≡ (ok status, s')
    → (outcome : CommitOutcome) × ((c.store.commit namespace action result s.metadata).0
        ≡ ok outcome)
      × Status outcome status
      × (s' ≡ record s {
        metadata = (c.store.commit namespace action result s.metadata).1;
        action_commits = s.action_commits + 1;
      })
unfolding commit_result
committed {M} {B} {S} c namespace action result status s s' e =
    let (outcome, s1, h, r) =
      continue-eq-ok _ (on_metadata (c.store.commit namespace action result) s) e in
    let (answered, left) = commit_status-Status c outcome status _ s' r in
    (
      outcome,
      map_err-eq-ok internal (c.store.commit namespace action result s.metadata).0 outcome
          (ap (λ p. p.0) h),
      answered,
      sym left
          ∙ ap {A = AppState M B S}
              (λ (t : AppState M B S). record t { action_commits = t.action_commits + 1 })
              (sym (ap (λ p. p.1) h)),
    )

-- With stores whose lookups change nothing, a result that `put_action_result` answers with success
-- was shown all of this in the state that the request met: the request may write to the namespace
-- and does not overwrite, it names the action that the result is for, the action's descriptor is
-- stored and valid, the result has the shape of its kind, and its metadata and its output tree are
-- valid where it has them. The store then has created the result (201) or has it already (204), and
-- nothing else has changed but the count of commits.
pub put_action_result-IsAccepted :
    {M B S : Type 0} (c : Config M B S) (serde : Serde) (fuel : ℕ) (headers : Headers)
    (algorithm hash : Text) (size : ℕ) (result : ActionResult) (s s' : AppState M B S) (status : ℕ)
    → IsReadOnly c
    → put_action_result c serde fuel headers algorithm hash size result s ≡ (ok status, s')
    → IsAccepted c serde headers algorithm hash size result s fuel s' status
unfolding put_action_result
put_action_result-IsAccepted c serde fuel headers algorithm hash size result s s' status only e =
    let (request, s1, e1, r1) =
      continue-eq-ok _ (refusing (checked c serde headers algorithm hash size result) s) e in
    let (same1, checks) =
      checked-IsChecked c only serde headers algorithm hash size result request s s1
        (refusing-ok (checked c serde headers algorithm hash size result) s s1 request e1) in
    let (u, s2, e2, r2) =
      continue-eq-ok _
        (where_some c result.output_root (λ root. validate_tree c serde request.0 fuel root) s1)
        r1 in
    let (same2, tree) =
      where_some-ok c result.output_root (λ root. validate_tree c serde request.0 fuel root) s1 s2
        (λ root h done. (validate_tree-Ordered c serde request.0 fuel root s1 s2 only done).0) e2 in
    let same : s ≡ s2 = same1 ∙ same2 in
    let (outcome, done, answered, left) = committed c request.0 request.1 result status s s' (
      subst (λ t. commit_result c request.0 request.1 result t ≡ (ok status, s')) (sym same)
        (refusing-ok (commit_result c request.0 request.1 result) s2 s' status r2)) in
    record {
      request = request;
      checks = checks;
      tree =
          subst
            (λ t.
              (root : Digest)
              → result.output_root ≡ some root
              → validate_tree c serde request.0 fuel root t ≡ (ok tt, t))
            (sym same1) tree;
      outcome = outcome;
      committed = done;
      answered = answered;
      left = left;
    }
