-- ===== src/Tests/Auth.antt =====
-- Authorization (src/auth.rs) with one configured token.
use mr_boxington_cache.Prelude.{
  ◌≡◌, ◌↔◌, refl, true, false, [], ◌∷◌, Option, none, some, ok, err, arith, if◌then◌else◌,
}
use mr_boxington_cache.Prelude.Bytes.{Text, text}
use mr_boxington_cache.Prelude.Equality.{◌==◌, nat_eq, list_eq}
use mr_boxington_cache.Server.Errors.{unauthorized}
use mr_boxington_cache.Auth.{
  Headers, TokenGrant, Authorizer, write, Tokens, constant_time_eq, authorize, bearer_token,
  valid_namespace,
}
use mr_boxington_cache.Auth.Laws.{IsGranted, authorize_iff, authorize_write}
use mr_boxington_cache.Auth.ConstantTime.{constant_time_eq_iff}

abbrev tokens : Tokens
tokens = record { decode_claims = λ t. none; verify = λ p t. none }

abbrev grant : TokenGrant
grant = record { token = text "secret"; read = text "*" ∷ []; write = text "team/*" ∷ [] }

abbrev auth : Authorizer
auth = record {
  grants = grant ∷ [];
  oidc = [];
  allow_anonymous = false;
  anonymous_read_namespaces = [];
}

-- A request for the namespace `team/a`, with or without a token.
abbrev headers : Option Text → Headers
headers token name =
    if name == text "mbx-cache-protocol"
    then some (text "1")
    else if name == text "mbx-cache-namespace"
    then some (text "team/a")
    else if name == text "authorization"
    then token
    else none

authorize_iff_example :
    (authorize tokens auth (headers (some (text "Bearer secret"))) write ≡ ok (text "team/a"))
    ↔ IsGranted tokens auth (headers (some (text "Bearer secret"))) write (text "team/a")
authorize_iff_example =
    authorize_iff tokens auth (headers (some (text "Bearer secret"))) write (text "team/a")

valid : valid_namespace (text "team/a") ≡ true
unfolding valid_namespace
valid = refl

bare : bearer_token (headers none) ≡ none
unfolding bearer_token
bare = refl

authorize_write_example :
    authorize tokens auth (headers none) write
    ≡ err (unauthorized (text "a bearer token is required"))
authorize_write_example =
    authorize_write tokens auth (headers none) (text "team/a") refl refl refl valid bare

constant_time_eq_iff_example :
    (constant_time_eq (text "secret") (text "secreT") ≡ true) ↔ (text "secret" ≡ text "secreT")
constant_time_eq_iff_example =
    constant_time_eq_iff (text "secret") (text "secreT")
      (omega arith, (omega arith, (omega arith, (omega arith, (omega arith, (omega arith, tt))))))
      (omega arith, (omega arith, (omega arith, (omega arith, (omega arith, (omega arith, tt))))))
