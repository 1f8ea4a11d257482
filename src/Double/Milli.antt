-- ===== src/Double/Milli.antt =====
-- An instance of the interface on which tests run: fixed-point numbers in thousandths. It meets the
-- laws of `IsExact` and `IsOrdered`, and rounds towards zero where those say nothing.
use cse.Base.{ℕ, zero, suc, ◌+◌, ◌-◌, ◌*◌, ◌/◌, ◌%◌, ◌^◌, ◌≡◌, arith, ltb, leb, if◌then◌else◌}
use cse.Base.Int.{ℤ, pos, negsuc, pos_part, neg_part, sub_ℕ, ◌+ℤ◌, ◌-ℤ◌, ◌*ℤ◌, ltb_ℤ}
use cse.Double.{Double, IsExact, IsOrdered}

pub data Milli : Type 0 where
  milli : ℤ → Milli

abbrev pub thousandths : Milli → ℤ
thousandths (milli n) = n

-- a / b on integers, towards zero
div_ℤ : ℤ → ℕ → ℤ
div_ℤ a b = sub_ℕ (pos_part a / b) (neg_part a / b)

times : ℤ → ℕ → ℤ
times a b = sub_ℕ (pos_part a * b) (neg_part a * b)

-- the quotient of two fixed-point numbers, 0 for a division by zero
quotient : ℤ → ℤ → ℤ
unfolding div_ℤ times
quotient a b =
    sub_ℕ
      (pos_part (div_ℤ (times a 1000) (pos_part b)) + neg_part (div_ℤ (times a 1000) (neg_part b)))
      (neg_part (div_ℤ (times a 1000) (pos_part b)) + pos_part (div_ℤ (times a 1000) (neg_part b)))

-- the integer square root, one binary digit for each unit of fuel
isqrt : ℕ → ℕ → ℕ
isqrt zero n = 0
isqrt (suc fuel) n =
    let r = 2 * isqrt fuel (n / 4) in if leb ((r + 1) * (r + 1)) n then r + 1 else r

abbrev unsigned : ℤ → ℕ → ℕ
unsigned a w = (pos_part a + (2 ^ w - neg_part a % 2 ^ w)) % 2 ^ w

abbrev signed : ℕ → ℕ → ℤ
signed n w = if ltb n (2 ^ (w - 1)) then pos n else negsuc (2 ^ w - n - 1)

instance unfoldable pub milli_double : Double Milli
unfolding ◌+ℤ◌ ◌-ℤ◌ ◌*ℤ◌ div_ℤ times quotient isqrt
milli_double = record {
  of_int = λ a. milli (times a 1000);
  decimal = λ m k. milli (pos (m * 1000 / 10 ^ k));
  add = λ x y. milli (thousandths x +ℤ thousandths y);
  sub = λ x y. milli (thousandths x -ℤ thousandths y);
  mul = λ x y. milli (div_ℤ (thousandths x *ℤ thousandths y) 1000);
  div = λ x y. milli (quotient (thousandths x) (thousandths y));
  sqrt = λ x. milli (pos (isqrt 64 (pos_part (thousandths x) * 1000)));
  ceil = λ x. milli (
      times (sub_ℕ ((pos_part (thousandths x) + 999) / 1000) (neg_part (thousandths x) / 1000))
        1000);
  lt = λ x y. ltb_ℤ (thousandths x) (thousandths y);
  to_uint = λ x. unsigned (div_ℤ (thousandths x) 1000) 32;
  to_ullong = λ x. unsigned (div_ℤ (thousandths x) 1000) 64;
  to_float = λ x. x;
  low = λ x. signed (unsigned (thousandths x) 64 % 2 ^ 32) 32;
  high = λ x. signed (unsigned (thousandths x) 64 / 2 ^ 32) 32;
  of_words = λ lo hi. milli (signed (unsigned lo 32 + 2 ^ 32 * unsigned hi 32) 64);
}

div_ℤ-times : (a : ℤ) → div_ℤ (times a 1000) 1000 ≡ a
unfolding div_ℤ times
div_ℤ-times (pos n) = ground arith
div_ℤ-times (negsuc n) = ground arith

times-add : (a b : ℤ) → times a 1000 +ℤ times b 1000 ≡ times (a +ℤ b) 1000
unfolding times ◌+ℤ◌
times-add a b = ground arith

times-sub : (a b : ℤ) → times a 1000 -ℤ times b 1000 ≡ times (a -ℤ b) 1000
unfolding times ◌-ℤ◌
times-sub a b = ground arith

pos_part-times : (a : ℤ) → pos_part (times a 1000) ≡ pos_part a * 1000
unfolding times
pos_part-times a = ground arith

neg_part-times : (a : ℤ) → neg_part (times a 1000) ≡ neg_part a * 1000
unfolding times
neg_part-times a = ground arith

scale_back :
    (p n p' n' : ℕ)
    → p' ≡ 1000000 * p
    → n' ≡ 1000000 * n
    → div_ℤ (sub_ℕ p' n') 1000 ≡ times (sub_ℕ p n) 1000
unfolding times div_ℤ
scale_back p n p' n' e f = ground arith

times-mul : (a b : ℤ) → div_ℤ (times a 1000 *ℤ times b 1000) 1000 ≡ times (a *ℤ b) 1000
unfolding ◌*ℤ◌
times-mul a b =
    scale_back _ _ _ _
      (rw (pos_part-times a, pos_part-times b, neg_part-times a, neg_part-times b) (omega arith))
      (rw (pos_part-times a, pos_part-times b, neg_part-times a, neg_part-times b) (omega arith))

times-lt : (a b : ℤ) → ltb_ℤ (times a 1000) (times b 1000) ≡ ltb_ℤ a b
unfolding times
times-lt a b = ground arith

abbrev pub AnyMilli : Milli → Type 0
AnyMilli x = Unit {0}

pub Milli-IsOrdered : IsOrdered Milli AnyMilli
unfolding milli_double
Milli-IsOrdered = record {
  lt_irrefl = λ x. ground arith;
  lt_asymm = λ x y h. ground arith;
  le_trans = λ x y z _ _ _ h k. ground arith;
}

pub Milli-IsExact : IsExact Milli
unfolding milli_double
Milli-IsExact = record {
  decimal_zero = λ n h. ground arith;
  add_exact = λ a b _ _ _. rw times-add;
  sub_exact = λ a b _ _ _. rw times-sub;
  mul_exact = λ a b _ _ _. rw times-mul;
  lt_exact = λ a b _ _. times-lt a b;
  to_uint_exact = λ n h. rw div_ℤ-times (omega arith);
  to_ullong_exact = λ n h. rw div_ℤ-times (omega arith);
}
