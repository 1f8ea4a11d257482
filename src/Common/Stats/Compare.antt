-- ===== src/Common/Stats/Compare.antt =====
-- `compare_function` against the order of the integers.
use cse.Base.{◌≡◌, Bool, not, ◌&&◌, ltb, leb, ◌^◌, arith, if◌then◌else◌}
use cse.Base.Int.{ℤ, pos_part, neg_part, ◌-ℤ◌, ltb_ℤ, is_negative, IsInt, wrap_int}
use cse.Common.Stats.{compare_function}

-- the mathematical difference is a value of type `int`
abbrev pub fits : ℤ → Bool
fits a = ltb (pos_part a) (2 ^ 31) && leb (neg_part a) (2 ^ 31)

-- For two `int`s the sign of `compare_function` agrees with their order exactly when the difference
-- is representable; when the subtraction overflows, the sign is the opposite one.
pub compare_function-lt :
    (a b : ℤ)
    → IsInt a
    → IsInt b
    → is_negative (compare_function a b) ≡ (if fits (a -ℤ b) then ltb_ℤ a b else not (ltb_ℤ a b))
unfolding compare_function wrap_int ◌-ℤ◌
compare_function-lt a b ha hb = ground arith
