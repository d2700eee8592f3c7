-- ===== src/Auth/Laws.antt =====
-- What `Authorizer::authorize` (src/auth.rs) promises: which namespace a request may use, and on
-- whose word.
use mr_boxington_cache.Prelude.{
  ◌≡◌, ◌↔◌, refl, Bool, true, false, ◌&&◌, ◌||◌, List, [], ◌∷◌, Option, none, some, ok, err, ◌>>=◌,
  >>=-eq-ok, ensure, ok_or, arith, any, is_empty, if◌then◌else◌, Bool-cases, Option-cases, inl, inr,
}
use mr_boxington_cache.Prelude.Bytes.{Text, text}
use mr_boxington_cache.Prelude.Equality.{◌==◌, nat_eq, list_eq, eq_iff}
use mr_boxington_cache.Json.{Value}
use mr_boxington_cache.Server.Errors.{unauthorized}
use mr_boxington_cache.Auth.{
  Headers, Authorizer, Access, write, TokenGrant, Tokens, valid_namespace, matches_namespace,
  OidcProvider, constant_time_eq, patterns, authorize_patterns, authorize_oidc, authorize_token,
  find, rule_allows, unverified_issuer, invalid_token, bearer_token, requested_namespace,
  speaks_protocol, is_anonymous, authorize,
}

find-eq-some :
    {A : Type 0} (test : A → Bool) (xs : List A) (x : A) → find test xs ≡ some x → test x ≡ true
unfolding find
find-eq-some test [] x e = absurd cc
find-eq-some test (y ∷ ys) x e = elim (Bool-cases (test y)) [
  | inl hit ↦ ground (arith, hit, e)
  | inr miss ↦ find-eq-some test ys x (rw miss at e)
]

requested :
    (headers : Headers) (namespace : Text)
    → requested_namespace headers ≡ some namespace
    → (headers (text "mbx-cache-namespace") ≡ some namespace) × (valid_namespace namespace ≡ true)
unfolding requested_namespace
requested headers namespace e = ground arith

spoken :
    (headers : Headers)
    → speaks_protocol headers ≡ true
    → headers (text "mbx-cache-protocol") ≡ some (text "1")
unfolding speaks_protocol
spoken headers e = elim (Option-cases (headers (text "mbx-cache-protocol"))) [
  | inl missing ↦ ground (arith, missing)
  | inr (version, given) ↦ ground (arith, given, eq_iff version (text "1"))
]

patterns_allow :
    (ps : List Text) (namespace granted : Text)
    → authorize_patterns ps namespace ≡ ok granted
    → (granted ≡ namespace) × (any (λ pattern. matches_namespace pattern namespace) ps ≡ true)
unfolding authorize_patterns
patterns_allow ps namespace granted e = ground arith

-- Who may use a namespace: anyone, the holder of a token of the configuration, or an identity that
-- a provider has verified and one of its rules allows.
pub data Grounds (t : Tokens) (auth : Authorizer) (headers : Headers) (access : Access)
    (namespace : Text) : Type 0 where
  anonymous : is_anonymous auth access namespace ≡ true → Grounds t auth headers access namespace
  by_token :
      (token : Text) (grant : TokenGrant)
      → bearer_token headers ≡ some token
      → find (λ g. constant_time_eq g.token token) auth.grants ≡ some grant
      → any (λ pattern. matches_namespace pattern namespace) (patterns grant access) ≡ true
      → Grounds t auth headers access namespace
  by_identity :
      (token issuer : Text) (provider : OidcProvider) (claims : Value)
      → bearer_token headers ≡ some token
      → find (λ g. constant_time_eq g.token token) auth.grants ≡ none
      → unverified_issuer t token ≡ some issuer
      → find (λ p. p.issuer == issuer) auth.oidc ≡ some provider
      → t.verify provider token ≡ some claims
      → any (rule_allows claims access namespace) provider.rules ≡ true
      → Grounds t auth headers access namespace

ok_or-eq-ok : {E A : Type 0} (o : Option A) (e : E) (a : A) → ok_or o e ≡ ok a → o ≡ some a
ok_or-eq-ok none e a h = absurd cc
ok_or-eq-ok (some b) e a h = ground arith

if-eq-ok :
    {E A : Type 0} (b : Bool) (a a' : A) (e : E)
    → (if b then ok a else err e) ≡ ok a'
    → (a' ≡ a) × (b ≡ true)
if-eq-ok true a a' e h = ground arith
if-eq-ok false a a' e h = absurd cc

ensure-eq-ok : {E : Type 0} (b : Bool) (e : E) (u : Unit {0}) → ensure b e ≡ ok u → b ≡ true
ensure-eq-ok true e u h = refl
ensure-eq-ok false e u h = absurd cc

identity-Grounds :
    (t : Tokens) (auth : Authorizer) (headers : Headers) (access : Access)
    (namespace granted token : Text)
    → bearer_token headers ≡ some token
    → find (λ g. constant_time_eq g.token token) auth.grants ≡ none
    → authorize_oidc t auth access namespace token ≡ ok granted
    → (granted ≡ namespace) × Grounds t auth headers access namespace
unfolding authorize_oidc
identity-Grounds t auth headers access namespace granted token given unknown e =
    let (issuer, named, e1) = >>=-eq-ok (ok_or (unverified_issuer t token) invalid_token) _ e in
    let (provider, known, e2) =
      >>=-eq-ok (ok_or (find (λ p. p.issuer == issuer) auth.oidc) invalid_token) _ e1 in
    let (claims, verified, e3) = >>=-eq-ok (ok_or (t.verify provider token) invalid_token) _ e2 in
    let (same, allowed) = if-eq-ok _ namespace granted _ e3 in
    (
      same,
      by_identity token issuer provider claims given unknown (ok_or-eq-ok _ _ _ named)
          (ok_or-eq-ok _ _ _ known) (ok_or-eq-ok _ _ _ verified) allowed,
    )

token-Grounds :
    (t : Tokens) (auth : Authorizer) (headers : Headers) (access : Access)
    (namespace granted token : Text)
    → bearer_token headers ≡ some token
    → authorize_token t auth access namespace token ≡ ok granted
    → (granted ≡ namespace) × Grounds t auth headers access namespace
unfolding authorize_token
token-Grounds t auth headers access namespace granted token given e =
    elim (Option-cases (find (λ g. constant_time_eq g.token token) auth.grants)) [
      | inl unknown ↦
          identity-Grounds t auth headers access namespace granted token given unknown
            (rw (authorize_token, unknown) at e)
      | inr (grant, held) ↦
          let (same, allowed) =
            patterns_allow (patterns grant access) namespace granted
              (rw (authorize_token, held) at e) in
          (same, by_token token grant given held allowed)
    ]

-- The request says protocol 1 and names a valid namespace, and there are grounds to grant it.
pub record IsGranted (t : Tokens) (auth : Authorizer) (headers : Headers) (access : Access)
    (namespace : Text) : Type 0 where
  pub protocol : headers (text "mbx-cache-protocol") ≡ some (text "1")
  pub named : headers (text "mbx-cache-namespace") ≡ some namespace
  pub valid : valid_namespace namespace ≡ true
  pub grounds : Grounds t auth headers access namespace

Grounds-of :
    (t : Tokens) (auth : Authorizer) (headers : Headers) (access : Access)
    (namespace granted : Text)
    → (if is_anonymous auth access namespace then ok namespace else do
      token ← ok_or (bearer_token headers) (unauthorized (text "a bearer token is required"))
      authorize_token t auth access namespace token)
      ≡ ok granted
    → (granted ≡ namespace) × Grounds t auth headers access namespace
Grounds-of t auth headers access namespace granted e =
    elim (Bool-cases (is_anonymous auth access namespace)) [
      | inl free ↦ (ground (arith, free), anonymous free)
      | inr closed ↦
          let (token, given, e') = >>=-eq-ok (ok_or (bearer_token headers) _) _ (rw closed at e) in
          token-Grounds t auth headers access namespace granted token (ok_or-eq-ok _ _ _ given) e'
    ]

IsGranted-of :
    (t : Tokens) (auth : Authorizer) (headers : Headers) (access : Access) (namespace : Text)
    → authorize t auth headers access ≡ ok namespace
    → IsGranted t auth headers access namespace
unfolding authorize
IsGranted-of t auth headers access namespace e =
    let (u, protocol, e1) = >>=-eq-ok (ensure (speaks_protocol headers) _) _ e in
    let (asked, named, e2) = >>=-eq-ok (ok_or (requested_namespace headers) _) _ e1 in
    let (same, why) = Grounds-of t auth headers access asked namespace e2 in
    let (there, valid) = requested headers asked (ok_or-eq-ok _ _ _ named) in
    record {
      protocol = spoken headers (ensure-eq-ok _ _ u protocol);
      named = rw same there;
      valid = rw same valid;
      grounds = rw same why;
    }

requested_back :
    (headers : Headers) (namespace : Text)
    → headers (text "mbx-cache-namespace") ≡ some namespace
    → valid_namespace namespace ≡ true
    → requested_namespace headers ≡ some namespace
unfolding requested_namespace
requested_back headers namespace named valid = rw (requested_namespace, named, valid)

spoken_back :
    (headers : Headers)
    → headers (text "mbx-cache-protocol") ≡ some (text "1")
    → speaks_protocol headers ≡ true
unfolding speaks_protocol
spoken_back headers given = rw (speaks_protocol, given)

Grounds-back :
    (t : Tokens) (auth : Authorizer) (headers : Headers) (access : Access) (namespace : Text)
    → is_anonymous auth access namespace ≡ false
    → Grounds t auth headers access namespace
    → (do
      token ← ok_or (bearer_token headers) (unauthorized (text "a bearer token is required"))
      authorize_token t auth access namespace token)
      ≡ ok namespace
unfolding authorize_token authorize_oidc authorize_patterns
Grounds-back t auth headers access namespace closed (anonymous free) = absurd cc
Grounds-back t auth headers access namespace closed (by_token token grant given held allowed) =
    rw (given, authorize_token, held, authorize_patterns, allowed)
Grounds-back t auth headers access namespace closed
      (by_identity token issuer provider claims given unknown named known verified allowed) =
    rw (given, authorize_token, unknown, authorize_oidc, named, known, verified, allowed)

authorized_of :
    (t : Tokens) (auth : Authorizer) (headers : Headers) (access : Access) (namespace : Text)
    → IsGranted t auth headers access namespace
    → authorize t auth headers access ≡ ok namespace
unfolding authorize
authorized_of t auth headers access namespace g =
    rw (spoken_back headers g.protocol, requested_back headers namespace g.named g.valid)
      elim (Bool-cases (is_anonymous auth access namespace)) [
        | inl free ↦ rw free
        | inr closed ↦ rw closed (Grounds-back t auth headers access namespace closed g.grounds)
      ]

-- `authorize` grants a namespace exactly when the request speaks protocol 1, names that namespace,
-- the namespace is well formed, and there are grounds: the service or the namespace is open to
-- the access, a configured token that the request bears has a pattern for it, or, where the token
-- is not a configured one, the provider of its issuer has verified it and one of the provider's
-- rules matches the claims and the namespace.
pub authorize_iff :
    (t : Tokens) (auth : Authorizer) (headers : Headers) (access : Access) (namespace : Text)
    → (authorize t auth headers access ≡ ok namespace) ↔ IsGranted t auth headers access namespace
authorize_iff t auth headers access namespace =
    (IsGranted-of t auth headers access namespace, authorized_of t auth headers access namespace)

and_false : (b : Bool) → (b && false || false) ≡ false
and_false b = ground arith

-- Where the service has tokens or providers, a write that bears no token, and that speaks version
-- 1 of the protocol and names a well-formed namespace, is answered 401.
pub authorize_write :
    (t : Tokens) (auth : Authorizer) (headers : Headers) (namespace : Text)
    → (is_empty auth.grants && is_empty auth.oidc) ≡ false
    → headers (text "mbx-cache-protocol") ≡ some (text "1")
    → headers (text "mbx-cache-namespace") ≡ some namespace
    → valid_namespace namespace ≡ true
    → bearer_token headers ≡ none
    → authorize t auth headers write ≡ err (unauthorized (text "a bearer token is required"))
unfolding authorize is_anonymous
authorize_write t auth headers namespace configured spoken named valid bare =
    rw (spoken_back headers spoken, requested_back headers namespace named valid, configured, bare)
      (rw (and_false auth.allow_anonymous))
