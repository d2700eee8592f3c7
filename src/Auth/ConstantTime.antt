-- ===== src/Auth/ConstantTime.antt =====
-- `constant_time_eq` of src/auth.rs compares byte strings, by tables of the two operations on bytes.
use Prim.Native.Nat.{bit_or, bit_xor}
use mr_boxington_cache.Prelude.{
  Bool-cases, inl, inr, nat_beq_iff, ℕ, zero, suc, ◌<◌, ◌≡◌, refl, ◌↔◌, Bool, true, false, not,
  ◌&&◌, List, [], ◌∷◌, length, arith, ltb, ltb→lt, nat_beq, nat_beq_iff, All, and_parts,
}
use mr_boxington_cache.Protocol.{IsByte}
use mr_boxington_cache.Auth.{differing, constant_time_eq}

all_below : ℕ → (ℕ → Bool) → Bool
all_below zero test = true
all_below (suc n) test = test n && all_below n test

all_below→ : (n : ℕ) (test : ℕ → Bool) (x : ℕ) → all_below n test ≡ true → x < n → test x ≡ true
unfolding all_below
all_below→ zero test x h below = elim below [ ]
all_below→ (suc n) test x h below = ground (arith, all_below→ n test x)

abbrev agree : Bool → Bool → Bool
agree true b = b
agree false b = not b

-- Two bytes have no differing bit exactly when they are the same.
xor_test : ℕ → ℕ → Bool
xor_test a b = agree (nat_beq (bit_xor a b) 0) (nat_beq a b) && ltb (bit_xor a b) 256

xor_table : all_below 256 (λ a. all_below 256 (xor_test a)) ≡ true
unfolding all_below xor_test
xor_table = refl

xor_tested : (a b : ℕ) → IsByte a → IsByte b → xor_test a b ≡ true
xor_tested a b ha hb =
    all_below→ 256 (xor_test a) b (all_below→ 256 (λ c. all_below 256 (xor_test c)) a xor_table ha)
      hb

or_test : ℕ → ℕ → Bool
or_test a b = agree (nat_beq (bit_or a b) 0) (nat_beq a 0 && nat_beq b 0) && ltb (bit_or a b) 256

or_table : all_below 256 (λ a. all_below 256 (or_test a)) ≡ true
unfolding all_below or_test
or_table = refl

or_tested : (a b : ℕ) → IsByte a → IsByte b → or_test a b ≡ true
or_tested a b ha hb =
    all_below→ 256 (or_test a) b (all_below→ 256 (λ c. all_below 256 (or_test c)) a or_table ha) hb

xor_zero : (a b : ℕ) → IsByte a → IsByte b → nat_beq (bit_xor a b) 0 ≡ nat_beq a b
unfolding xor_test
xor_zero a b ha hb = ground (arith, xor_tested a b ha hb)

xor-IsByte : (a b : ℕ) → IsByte a → IsByte b → IsByte (bit_xor a b)
unfolding xor_test
xor-IsByte a b ha hb = ltb→lt _ _ (and_parts _ _ (xor_tested a b ha hb)).1

or_zero : (a b : ℕ) → IsByte a → IsByte b → nat_beq (bit_or a b) 0 ≡ (nat_beq a 0 && nat_beq b 0)
unfolding or_test
or_zero a b ha hb = ground (arith, or_tested a b ha hb)

or-IsByte : (a b : ℕ) → IsByte a → IsByte b → IsByte (bit_or a b)
unfolding or_test
or-IsByte a b ha hb = ltb→lt _ _ (and_parts _ _ (or_tested a b ha hb)).1

-- The fold ends at 0 exactly when it began at 0 and the strings agree.
differing_zero :
    (diff : ℕ) (left right : List ℕ)
    → IsByte diff
    → All IsByte left
    → All IsByte right
    → length left ≡ length right
    → (nat_beq (differing diff left right) 0 ≡ true) ↔ ((diff ≡ 0) × (left ≡ right))
unfolding differing
differing_zero diff [] [] hd hl hr e = ground arith
differing_zero diff [] (b ∷ bs) hd hl hr e = absurd (omega arith)
differing_zero diff (a ∷ as') [] hd hl hr e = absurd (omega arith)
differing_zero diff (a ∷ as') (b ∷ bs) hd hl hr e =
    let x = xor-IsByte a b hl.0 hr.0 in
    let ih =
      differing_zero (bit_or diff (bit_xor a b)) as' bs (or-IsByte diff (bit_xor a b) hd x) hl.1
        hr.1 (omega arith) in
    ground (arith, ih, or_zero diff (bit_xor a b) hd x, xor_zero a b hl.0 hr.0)

same_length : (left right : List ℕ) → left ≡ right → length left ≡ length right
same_length left right e = rw e

-- On byte strings the comparison that takes the same time for all texts of a length is equality.
pub constant_time_eq_iff :
    (left right : List ℕ)
    → All IsByte left
    → All IsByte right
    → (constant_time_eq left right ≡ true) ↔ (left ≡ right)
unfolding constant_time_eq
constant_time_eq_iff left right hl hr = elim (Bool-cases (nat_beq (length left) (length right))) [
  | inl same ↦ ground (
    arith,
    same,
    differing_zero 0 left right (omega arith) hl hr
        ((nat_beq_iff (length left) (length right)).0 same),
  )
  | inr other ↦ ground (arith, other, same_length left right)
]
