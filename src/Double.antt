-- ===== src/Double.antt =====
-- The C type `double` as the programs of rpi3_bench use it: an interface of operations, and the
-- documented behaviour of IEEE binary64 that proofs may ask for. No value is built in: every
-- definition of the library that computes with a `double` takes such an interface.

pub mod Milli
use cse.Base.{ℕ, ◌+◌, ◌^◌, ◌<◌, ◌≡◌, Bool, true, false}
use cse.Base.Int.{ℤ, pos, pos_part, neg_part, ◌+ℤ◌, ◌-ℤ◌, ◌*ℤ◌, ltb_ℤ}

pub record Double (D : Type 0) : Type 0 where
  -- a conversion from an integer type
  pub of_int : ℤ → D
  -- `decimal m k` is the literal m / 10 ^ k
  pub decimal : ℕ → ℕ → D
  pub add : D → D → D
  pub sub : D → D → D
  pub mul : D → D → D
  pub div : D → D → D
  pub sqrt : D → D
  pub ceil : D → D
  pub lt : D → D → Bool
  -- the conversions to `unsigned int`, `unsigned long long` and `float`
  pub to_uint : D → ℕ
  pub to_ullong : D → ℕ
  pub to_float : D → D
  -- the two `int` halves of the representation, at the lower and at the higher address
  pub low : D → ℤ
  pub high : D → ℤ
  pub of_words : ℤ → ℤ → D

infixl 65 ◌⊕◌ ◌⊖◌
infixl 70 ◌⊗◌ ◌⊘◌
abbrev pub ◌⊕◌ : {D : Type 0} ⦃d : Double D⦄ → D → D → D
◌⊕◌ ⦃d⦄ = d.add

abbrev pub ◌⊖◌ : {D : Type 0} ⦃d : Double D⦄ → D → D → D
◌⊖◌ ⦃d⦄ = d.sub

abbrev pub ◌⊗◌ : {D : Type 0} ⦃d : Double D⦄ → D → D → D
◌⊗◌ ⦃d⦄ = d.mul

abbrev pub ◌⊘◌ : {D : Type 0} ⦃d : Double D⦄ → D → D → D
◌⊘◌ ⦃d⦄ = d.div

abbrev pub of_int : {D : Type 0} ⦃d : Double D⦄ → ℤ → D
of_int ⦃d⦄ = d.of_int

abbrev pub decimal : {D : Type 0} ⦃d : Double D⦄ → ℕ → ℕ → D
decimal ⦃d⦄ = d.decimal

abbrev pub sqrt : {D : Type 0} ⦃d : Double D⦄ → D → D
sqrt ⦃d⦄ = d.sqrt

abbrev pub ceil : {D : Type 0} ⦃d : Double D⦄ → D → D
ceil ⦃d⦄ = d.ceil

abbrev pub lt : {D : Type 0} ⦃d : Double D⦄ → D → D → Bool
lt ⦃d⦄ = d.lt

abbrev pub to_uint : {D : Type 0} ⦃d : Double D⦄ → D → ℕ
to_uint ⦃d⦄ = d.to_uint

abbrev pub to_ullong : {D : Type 0} ⦃d : Double D⦄ → D → ℕ
to_ullong ⦃d⦄ = d.to_ullong

abbrev pub to_float : {D : Type 0} ⦃d : Double D⦄ → D → D
to_float ⦃d⦄ = d.to_float

-- The integers that a `double` holds exactly, as far as the laws below go.
abbrev pub IsSmall : ℤ → Type 0
IsSmall a = (pos_part a < 2 ^ 53) × (neg_part a < 2 ^ 53)

-- Arithmetic whose operands and result are small integers does not round.
pub record IsExact (D : Type 0) ⦃d : Double D⦄ : Type 0 where
  pub decimal_zero : (n : ℕ) → n < 2 ^ 53 → decimal {D = D} n 0 ≡ of_int (pos n)
  pub add_exact :
      (a b : ℤ)
      → IsSmall a
      → IsSmall b
      → IsSmall (a +ℤ b)
      → of_int {D = D} a ⊕ of_int b ≡ of_int (a +ℤ b)
  pub sub_exact :
      (a b : ℤ)
      → IsSmall a
      → IsSmall b
      → IsSmall (a -ℤ b)
      → of_int {D = D} a ⊖ of_int b ≡ of_int (a -ℤ b)
  pub mul_exact :
      (a b : ℤ)
      → IsSmall a
      → IsSmall b
      → IsSmall (a *ℤ b)
      → of_int {D = D} a ⊗ of_int b ≡ of_int (a *ℤ b)
  pub lt_exact : (a b : ℤ) → IsSmall a → IsSmall b → lt (of_int {D = D} a) (of_int b) ≡ ltb_ℤ a b
  pub to_uint_exact : (n : ℕ) → n < 2 ^ 32 → to_uint (of_int {D = D} (pos n)) ≡ n
  pub to_ullong_exact : (n : ℕ) → n < 2 ^ 53 → to_ullong (of_int {D = D} (pos n)) ≡ n

-- `<` is a strict order, transitive also where two values compare neither way, as the numbers are.
-- NaN is excluded by the predicate `IsNumber`.
pub record IsOrdered (D : Type 0) ⦃d : Double D⦄ (IsNumber : D → Type 0) : Type 0 where
  pub lt_irrefl : (x : D) → lt x x ≡ false
  pub lt_asymm : (x y : D) → lt x y ≡ true → lt y x ≡ false
  pub le_trans :
      (x y z : D)
      → IsNumber x
      → IsNumber y
      → IsNumber z
      → lt y x ≡ false
      → lt z y ≡ false
      → lt z x ≡ false
