-- ===== src/Auth.antt =====
-- Authorization of requests: src/auth.rs.
-- The bytes of a token are checked by `verify`, an argument: it stands for the JWT library, the
-- provider's keys and the clock.
pub mod ConstantTime
pub mod Laws
use Prim.Native.Nat.{bit_or, bit_xor}
use mr_boxington_cache.Prelude.{
  ℕ, ◌+◌, ◌-◌, ◌%◌, Bool, true, false, not, ◌&&◌, ◌||◌, List, [], ◌∷◌, ◌++◌, Option, none, some,
  Result, ok, err, ◌>>=◌, ◌>>◌, ensure, ok_or, length, is_empty, all, any, leb, nat_beq, get_elem?,
  if◌then◌else◌,
}
use mr_boxington_cache.Prelude.Bytes.{
  Text, text, is_alphanumeric, split, strip_prefix, strip_suffix,
}
use mr_boxington_cache.Prelude.Equality.{◌==◌, nat_eq, list_eq}
use mr_boxington_cache.Json
use mr_boxington_cache.Json.{Value, Values, boolean, number, string, array, nil, cons}
use mr_boxington_cache.Server.Errors.{
  ApiError, bad_request, unauthorized, forbidden, upgrade_required,
}

-- `headers.get(name).and_then(|value| value.to_str().ok())`
abbrev pub Headers : Type 0
Headers = Text → Option Text

pub record TokenGrant : Type 0 where
  pub token : Text
  pub read : List Text
  pub write : List Text

pub data ScalarValue : Type 0 where
  a_string : Text → ScalarValue
  a_number : Text → ScalarValue
  a_bool : Bool → ScalarValue

pub data ClaimRequirement : Type 0 where
  one : ScalarValue → ClaimRequirement
  any_of : List ScalarValue → ClaimRequirement

pub record OidcRule : Type 0 where
  pub claims : List (Text × ClaimRequirement)
  pub read : List Text
  pub write : List Text

pub record OidcProvider : Type 0 where
  pub issuer : Text
  pub rules : List OidcRule

pub record Authorizer : Type 0 where
  pub grants : List TokenGrant
  pub oidc : List OidcProvider
  pub allow_anonymous : Bool
  pub anonymous_read_namespaces : List Text

pub data Access : Type 0 where
  read write : Access

-- Namespaces and patterns.
unfoldable pub is_namespace_byte : ℕ → Bool
is_namespace_byte b =
    is_alphanumeric b || (nat_beq b b'-' || (nat_beq b b'_' || (nat_beq b b'.' || nat_beq b b'/')))

-- A component of a path that leads nowhere else.
unfoldable pub is_safe_component : Text → Bool
is_safe_component c = not (is_empty c) && (not (c == text ".") && not (c == text ".."))

unfoldable pub valid_namespace : Text → Bool
unfolding is_namespace_byte is_safe_component
valid_namespace value =
    not (is_empty value)
    && (leb (length value) 255
        && (all is_namespace_byte value && all is_safe_component (split b'/' value)))

-- `namespace.starts_with(prefix) && namespace.as_bytes().get(prefix.len()) == Some(&b'/')`
unfoldable pub is_below : Text → Text → Bool
is_below prefix namespace = elim (strip_prefix prefix namespace) [
  | none ↦ false
  | some rest ↦ elim (get_elem? namespace (length prefix)) [
    | none ↦ false
    | some b ↦ nat_beq b b'/'
  ]
]

unfoldable pub matches_namespace : Text → Text → Bool
unfolding is_below
matches_namespace pattern namespace =
    pattern == text "*"
    || (pattern == namespace || elim (strip_suffix (text "/*") pattern) [
      | none ↦ false
      | some prefix ↦ is_below prefix namespace
    ])

-- `left.iter().zip(right).fold(0_u8, |diff, (a, b)| diff | (a ^ b))`
unfoldable pub differing : ℕ → List ℕ → List ℕ → ℕ
differing diff (a ∷ as') (b ∷ bs) = differing (bit_or diff (bit_xor a b)) as' bs
differing diff _ _ = diff

unfoldable pub constant_time_eq : List ℕ → List ℕ → Bool
constant_time_eq left right =
    if not (nat_beq (length left) (length right)) then false else nat_beq (differing 0 left right) 0

-- Claims.
unfoldable pub scalar_matches : ScalarValue → Value → Bool
scalar_matches (a_string expected) (string actual) = expected == actual
scalar_matches (a_number expected) (number actual) = expected == actual
scalar_matches (a_bool true) (boolean actual) = actual
scalar_matches (a_bool false) (boolean actual) = not actual
scalar_matches _ _ = false

unfoldable pub expected_values : ClaimRequirement → List ScalarValue
expected_values (one value) = value ∷ []
expected_values (any_of values) = values

unfoldable pub any_matches : List ScalarValue → Value → Bool
unfolding scalar_matches
any_matches expected actual = any (λ value. scalar_matches value actual) expected

unfoldable pub any_value : (Value → Bool) → Values → Bool
any_value test nil = false
any_value test (cons v vs) = test v || any_value test vs

unfoldable pub claim_matches : ClaimRequirement → Value → Bool
unfolding expected_values any_matches any_value
claim_matches requirement (array values) =
    any_value (any_matches (expected_values requirement)) values
claim_matches requirement actual = any_matches (expected_values requirement) actual

unfoldable pub rule_patterns : OidcRule → Access → List Text
rule_patterns rule read = rule.read
rule_patterns rule write = rule.write

unfoldable pub matches_claims : OidcRule → Value → Bool
unfolding claim_matches
matches_claims rule claims =
    all (λ c. elim (Json.get c.0 claims) [ none ↦ false | some actual ↦ claim_matches c.1 actual ])
      rule.claims

-- Tokens.
unfoldable pub patterns : TokenGrant → Access → List Text
patterns grant read = grant.read
patterns grant write = grant.write

unfoldable pub authorize_patterns : List Text → Text → Result ApiError Text
authorize_patterns ps namespace =
    if any (λ pattern. matches_namespace pattern namespace) ps
    then ok namespace
    else err (forbidden (text "token is not authorized for this namespace"))

unfoldable pub find : {A : Type 0} → (A → Bool) → List A → Option A
find test [] = none
find test (x ∷ xs) = let rest = find test xs in if test x then some x else rest

-- What `authorize` takes from elsewhere: base64 and JSON decoding of a token's payload, and the
-- verification of a token by a provider, which gives its claims.
pub record Tokens : Type 0 where
  pub decode_claims : Text → Option Value
  pub verify : OidcProvider → Text → Option Value

-- The payload of a token of exactly three segments.
unfoldable pub token_payload : List Text → Option Text
token_payload (header ∷ payload ∷ signature ∷ []) = some payload
token_payload _ = none

unfoldable pub unverified_issuer : Tokens → Text → Option Text
unfolding token_payload
unverified_issuer t token = elim (token_payload (split b'.' token)) [
  | none ↦ none
  | some payload ↦ elim (t.decode_claims payload) [
    | none ↦ none
    | some claims ↦ elim (Json.get (text "iss") claims) [
      | none ↦ none
      | some issuer ↦ Json.as_str issuer
    ]
  ]
]

unfoldable pub invalid_token : ApiError
invalid_token = unauthorized (text "invalid bearer token")

unfoldable pub rule_allows : Value → Access → Text → OidcRule → Bool
unfolding rule_patterns
rule_allows claims access namespace rule =
    matches_claims rule claims
    && any (λ pattern. matches_namespace pattern namespace) (rule_patterns rule access)

unfoldable pub authorize_oidc : Tokens → Authorizer → Access → Text → Text → Result ApiError Text
unfolding unverified_issuer find rule_allows invalid_token
authorize_oidc t auth access namespace token = do
  issuer ← ok_or (unverified_issuer t token) invalid_token
  provider ← ok_or (find (λ p. p.issuer == issuer) auth.oidc) invalid_token
  claims ← ok_or (t.verify provider token) invalid_token
  if any (rule_allows claims access namespace) provider.rules
      then ok namespace
      else err (forbidden (text "identity is not authorized for this namespace"))

unfoldable pub authorize_token : Tokens → Authorizer → Access → Text → Text → Result ApiError Text
unfolding find patterns
authorize_token t auth access namespace token =
    elim (find (λ grant. constant_time_eq grant.token token) auth.grants) [
      | some grant ↦ authorize_patterns (patterns grant access) namespace
      | none ↦ authorize_oidc t auth access namespace token
    ]

-- `get(AUTHORIZATION)` with the prefix that a bearer token has.
unfoldable pub bearer_token : Headers → Option Text
bearer_token headers = elim (headers (text "authorization")) [
  | none ↦ none
  | some value ↦ strip_prefix (text "Bearer ") value
]

-- The namespace that a request names, if it is one.
unfoldable pub requested_namespace : Headers → Option Text
requested_namespace headers = elim (headers (text "mbx-cache-namespace")) [
  | none ↦ none
  | some value ↦ if valid_namespace value then some value else none
]

-- `get("mbx-cache-protocol") != Some("1")`
unfoldable pub speaks_protocol : Headers → Bool
speaks_protocol headers = elim (headers (text "mbx-cache-protocol")) [
  | none ↦ false
  | some version ↦ version == text "1"
]

-- Whether a request to read, or to write, needs no token.
unfoldable pub is_anonymous : Authorizer → Access → Text → Bool
is_anonymous auth access namespace =
    (auth.allow_anonymous && (is_empty auth.grants && is_empty auth.oidc)) || elim access [
      | read ↦ any (λ pattern. matches_namespace pattern namespace) auth.anonymous_read_namespaces
      | write ↦ false
    ]

unfoldable pub authorize : Tokens → Authorizer → Headers → Access → Result ApiError Text
unfolding speaks_protocol requested_namespace bearer_token is_anonymous
authorize t auth headers access = do
  ensure (speaks_protocol headers) upgrade_required
  namespace ←
      ok_or (requested_namespace headers)
        (bad_request (text "a valid Mbx-Cache-Namespace header is required"))
  if is_anonymous auth access namespace then ok namespace else do
    token ← ok_or (bearer_token headers) (unauthorized (text "a bearer token is required"))
    authorize_token t auth access namespace token
