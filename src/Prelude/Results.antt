-- ===== src/Prelude/Results.antt =====
-- Rust's `Result`, with the error first, and `?` as a bind.
use mathlib.Core.Path.{◌≡◌, refl}
use mathlib.Core.Logic.{◌⊎◌, inl, inr}
use mathlib.Core.Bool.{Bool, true, false}
use mathlib.Core.Option.{Option, none, some}

pub data Result {ℓ κ} (E : Type ℓ) (A : Type κ) : Type (ℓ ⊔ κ) where
  ok : A → Result E A
  err : E → Result E A

-- `if !b { return Err(e) }`
abbrev pub ensure {κ} : {E : Type κ} (b : Bool) (refusal : E) → Result E (Unit {0})
ensure false refusal = err refusal
ensure true refusal = ok tt

infixl 5 ◌>>=◌ ◌>>◌
-- `?`
abbrev pub ◌>>=◌ {ℓ κ μ} :
    {E : Type ℓ} {A : Type κ} {B : Type μ} (m : Result E A) (next : A → Result E B) → Result E B
◌>>=◌ (err refusal) next = err refusal
◌>>=◌ (ok a) next = next a

abbrev pub ◌>>◌ {κ μ} :
    {E : Type κ} {B : Type μ} (first : Result E (Unit {0})) (then : Result E B) → Result E B
◌>>◌ first then = first >>= (λ u. then)

-- `ok_or`
abbrev pub ok_or {ℓ κ} : {E : Type ℓ} {A : Type κ} → Option A → E → Result E A
ok_or none e = err e
ok_or (some a) e = ok a

pub Result-cases {ℓ κ} :
    {E : Type ℓ} {A : Type κ} (m : Result E A) → ((a : A) × (m ≡ ok a)) ⊎ ((e : E) × (m ≡ err e))
Result-cases (ok a) = inl (a, refl)
Result-cases (err e) = inr (e, refl)

-- Two binds agree when what follows agrees wherever it is reached.
pub bind_congr {ℓ κ μ} :
    {E : Type ℓ} {A : Type κ} {B : Type μ} (m : Result E A) (f g : A → Result E B)
    → ((a : A) → m ≡ ok a → f a ≡ g a)
    → (m >>= f) ≡ (m >>= g)
bind_congr (ok a) f g h = h a refl
bind_congr (err e) f g h = refl

-- Inversion of a successful bind.
pub >>=-eq-ok {ℓ κ μ} :
    {E : Type ℓ} {A : Type κ} {B : Type μ} (first : Result E A) (next : A → Result E B) {done : B}
    (e : (first >>= next) ≡ ok done)
    → (x : A) × (first ≡ ok x) × (next x ≡ ok done)
>>=-eq-ok (err refusal) next e = cc
>>=-eq-ok (ok x) next e = (x, refl, e)

pub ensure-then {κ μ} :
    {E : Type κ} {A : Type μ} (b : Bool) (e : E) (rest : Result E A) (a : A)
    → (ensure b e >> rest) ≡ ok a
    → (b ≡ true) × (rest ≡ ok a)
ensure-then true e rest a h = (refl, h)
ensure-then false e rest a h = absurd cc

pub ok_or-then {ℓ κ μ} :
    {E : Type κ} {A : Type ℓ} {C : Type μ} (o : Option A) (e : E) (rest : A → Result E C) (c : C)
    → (ok_or o e >>= rest) ≡ ok c
    → (a : A) × (o ≡ some a) × (rest a ≡ ok c)
ok_or-then none e rest c h = absurd cc
ok_or-then (some a) e rest c h = (a, refl, h)

pub ok_inj {ℓ κ} : {E : Type κ} {A : Type ℓ} {a b : A} → ◌≡◌ {A = Result E A} (ok a) (ok b) → a ≡ b
ok_inj e = cc e

pub err_not_ok {ℓ κ} :
    {E : Type κ} {A : Type ℓ} {e : E} {a : A} → ◌≡◌ {A = Result E A} (err e) (ok a) → ⊥
err_not_ok h = cc

pub bind_assoc {ℓ κ μ ν} :
    {E : Type ℓ} {A : Type κ} {B : Type μ} {C : Type ν} (m : Result E A) (f : A → Result E B)
    (g : B → Result E C)
    → (m >>= f >>= g) ≡ (m >>= λ a. f a >>= g)
bind_assoc (ok a) f g = refl
bind_assoc (err e) f g = refl
