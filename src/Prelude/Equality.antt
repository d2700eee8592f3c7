-- ===== src/Prelude/Equality.antt =====
-- Decidable equality as an interface, and sets (Rust's `HashSet`) as lists over it.
use Prim.Native.Nat.{ℕ}
use mathlib.Core.Path.{◌≡◌, refl}
use mathlib.Core.Logic.{◌↔◌}
use mathlib.Core.Bool.{Bool, true, false, ◌&&◌, ◌||◌}
use mathlib.Core.List.{List, [], ◌∷◌}
use native.Mathlib.Omega.{arith}
use mr_boxington_cache.Prelude.Tests.{nat_beq, nat_beq_iff, if◌then◌else◌}

infix 50 ◌==◌
-- A type whose values the code compares by `==`.
pub record Eq {κ} (K : Type κ) : Type κ where
  pub beq : (x y : K) → Bool
  pub beq_iff : (x y : K) → (beq x y ≡ true) ↔ (x ≡ y)

abbrev pub ◌==◌ {κ} : {K : Type κ} ⦃eq : Eq K⦄ (x y : K) → Bool
◌==◌ ⦃eq⦄ x y = eq.beq x y

pub eq_iff {ℓ} : {A : Type ℓ} ⦃e : Eq A⦄ (a b : A) → ((a == b) ≡ true) ↔ (a ≡ b)
eq_iff ⦃e⦄ a b = e.beq_iff a b

pub eq_refl {ℓ} : {A : Type ℓ} ⦃e : Eq A⦄ (a : A) → (a == a) ≡ true
eq_refl ⦃e⦄ a = (e.beq_iff a a).1 refl

instance abbrev pub nat_eq : Eq ℕ
nat_eq = record { beq = nat_beq; beq_iff = nat_beq_iff }

module _ {ℓ} {A : Type ℓ} ⦃e : Eq A⦄ where
  abbrev pub list_beq : List A → List A → Bool
  list_beq [] [] = true
  list_beq [] (y ∷ ys) = false
  list_beq (x ∷ xs) [] = false
  list_beq (x ∷ xs) (y ∷ ys) = x == y && list_beq xs ys

  pub list_beq_iff : (xs ys : List A) → (list_beq xs ys ≡ true) ↔ (xs ≡ ys)
  list_beq_iff [] [] = ground arith
  list_beq_iff [] (y ∷ ys) = ground arith
  list_beq_iff (x ∷ xs) [] = ground arith
  list_beq_iff (x ∷ xs) (y ∷ ys) = ground (arith, e.beq_iff x y, list_beq_iff xs ys)

  instance abbrev pub list_eq : Eq (List A)
  list_eq = record { beq = list_beq; beq_iff = list_beq_iff }

  -- `HashSet::contains`, also `slice::contains`
  abbrev pub contains : List A → A → Bool
  contains [] a = false
  contains (x ∷ xs) a = a == x || contains xs a

  -- `HashSet::insert` of what may be there; the Boolean is whether it was new.
  abbrev pub insert : List A → A → Bool × List A
  insert xs a = if contains xs a then (false, xs) else (true, a ∷ xs)

  -- `HashSet::remove`
  abbrev pub remove : List A → A → List A
  remove [] a = []
  remove (x ∷ xs) a = let rest = remove xs a in if a == x then rest else x ∷ rest

  pub contains-remove :
      (xs : List A) (a b : A) → contains (remove xs a) b ≡ (if a == b then false else contains xs b)
  contains-remove [] a b = ground arith
  contains-remove (x ∷ xs) a b =
      ground (arith, e.beq_iff a b, e.beq_iff a x, e.beq_iff b x, contains-remove xs a b)
