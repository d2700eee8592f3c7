-- ===== src/Server/Handler.antt =====
-- What a handler of src/server.rs is: a function of the service's state to an answer or an error
-- and the state it leaves. `?` ends it and keeps what was changed before.
use mr_boxington_cache.Prelude.{◌≡◌, refl, ap, Bool, true, false, Result, ok, err, ok_inj}
use mr_boxington_cache.Metadata.{Access}
use mr_boxington_cache.Server.Errors.{ApiError, internal}
use mr_boxington_cache.Server.Digests.{map_err}
use mr_boxington_cache.Server.Service.{AppState}

-- The same over any type of errors.
abbrev pub Steps : Type 0 → Type 0 → Type 0 → Type 0
Steps E S A = S → Result E A × S

abbrev pub Handler : Type 0 → Type 0 → Type 0
Handler S A = S → Result ApiError A × S

module _ {E S A : Type 0} where
  abbrev pub pure : A → Steps E S A
  pure a s = (ok a, s)

  abbrev pub fail : E → Steps E S A
  fail e s = (err e, s)

  -- A computation without state.
  abbrev pub lift : Result E A → Steps E S A
  lift r s = (r, s)

-- What follows a step that has answered.
abbrev pub continue : {E S A B : Type 0} → (A → Steps E S B) → Result E A × S → Result E B × S
continue next (ok a, s) = next a s
continue next (err e, s) = (err e, s)

infixl 5 ◌>>=◌ ◌>>◌
abbrev pub ◌>>=◌ : {E S A B : Type 0} → Steps E S A → (A → Steps E S B) → Steps E S B
◌>>=◌ first next s = continue next (first s)

abbrev pub ◌>>◌ : {E S B : Type 0} → Steps E S (Unit {0}) → Steps E S B → Steps E S B
first >> then = first >>= λ _. then

-- `if !b { return Err(e) }`
abbrev pub require : {E S : Type 0} → Bool → E → Steps E S (Unit {0})
require true e s = (ok tt, s)
require false e s = (err e, s)

abbrev pub modify : {S : Type 0} → (S → S) → Handler S (Unit {0})
modify f s = (ok tt, f s)

-- An operation of the metadata store, or of the object store, whose failure is internal.
abbrev pub on_metadata : {M B S A : Type 0} → Access M A → Handler (AppState M B S) A
on_metadata operation s =
    (map_err internal (operation s.metadata).0, record s { metadata = (operation s.metadata).1 })

abbrev pub on_blobs : {M B S A : Type 0} → Access B A → Handler (AppState M B S) A
on_blobs operation s =
    (map_err internal (operation s.blobs).0, record s { blobs = (operation s.blobs).1 })

-- Inversion of a handler that has answered: its first step has, and what follows has from there.
pub continue-eq-ok :
    {E S A B : Type 0} (next : A → Steps E S B) (p : Result E A × S) {b : B} {s' : S}
    → continue next p ≡ (ok b, s')
    → (a : A) × (s1 : S) × (p ≡ (ok a, s1)) × (next a s1 ≡ (ok b, s'))
continue-eq-ok next (ok a, s1) e = (a, s1, refl, e)
continue-eq-ok next (err x, s1) e = absurd cc

pub require-then :
    {E S A : Type 0} (b : Bool) (e : E) (then : Steps E S A) (s : S) {a : A} {s' : S}
    → continue (λ (u : Unit {0}). then) (require b e s) ≡ (ok a, s')
    → (b ≡ true) × (then s ≡ (ok a, s'))
require-then true e then s h = (refl, h)
require-then false e then s h = absurd cc

pub lift-then :
    {E S A B : Type 0} (r : Result E A) (next : A → Steps E S B) (s : S) {b : B} {s' : S}
    → continue next (lift r s) ≡ (ok b, s')
    → (a : A) × (r ≡ ok a) × (next a s ≡ (ok b, s'))
lift-then (ok a) next s h = (a, refl, h)
lift-then (err e) next s h = absurd cc

pub pure-eq-ok :
    {E S A : Type 0} {a b : A} {s s' : S}
    → ◌≡◌ {A = Result E A × S} (ok a, s) (ok b, s')
    → (a ≡ b) × (s ≡ s')
pure-eq-ok h = (ok_inj (ap (λ p. p.0) h), ap (λ p. p.1) h)
