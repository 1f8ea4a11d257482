-- ===== src/Common/Time/Exact.antt =====
-- Elapsed times are exact: no rounding for intervals of up to nine million seconds.
use cse.Base.{◌*◌, ◌<◌, ◌≡◌, ap, ◌∙◌, arith}
use cse.Base.Int.{
  ℤ, pos, pos_part, neg_part, ◌+ℤ◌, ◌-ℤ◌, ◌*ℤ◌, *ℤ_comm, int_laws, +ℤ_parts, -ℤ_parts, mul_parts,
  parts_apart, eq_of_parts,
}
use cse.Double.{Double, IsSmall, IsExact, ◌⊕◌, ◌⊖◌, ◌⊗◌, of_int}
use cse.Machine.{Timespec}
use cse.Common.{billion}
use cse.Common.Time.{timespec_diff_to_nsecs, elapsed}

-- the point in time that a `struct timespec` stands for, in nanoseconds
unfoldable pub nanoseconds : Timespec → ℤ
nanoseconds t = pos 1000000000 *ℤ t.tv_sec +ℤ t.tv_nsec

-- what POSIX promises of a time that a clock returns
pub record IsNormal (t : Timespec) : Type 0 where
  pub nsec_pos : neg_part t.tv_nsec ≡ 0
  pub nsec_lt : pos_part t.tv_nsec < 1000000000

-- two normal times that are less than nine million seconds apart
pub record IsClose (start end : Timespec) : Type 0 where
  pub start_IsNormal : IsNormal start
  pub end_IsNormal : IsNormal end
  pub later : pos_part (end.tv_sec -ℤ start.tv_sec) < 9000000
  pub earlier : neg_part (end.tv_sec -ℤ start.tv_sec) < 9000000

module _ {start end : Timespec} (near : IsClose start end) where
  abbrev seconds : ℤ
  seconds = end.tv_sec -ℤ start.tv_sec

  seconds_parts :
      (pos_part (pos 1000000000 *ℤ seconds) ≡ 1000000000 * pos_part seconds)
      × (neg_part (pos 1000000000 *ℤ seconds) ≡ 1000000000 * neg_part seconds)
  seconds_parts = mul_parts 1000000000 seconds

  abbrev total : ℤ
  total = nanoseconds end -ℤ nanoseconds start

  abbrev nsec_diff : ℤ
  nsec_diff = end.tv_nsec -ℤ start.tv_nsec

  product_IsSmall : IsSmall (pos 1000000000 *ℤ seconds)
  product_IsSmall = omega (arith, seconds_parts)

  nsec_diff_IsSmall : (pos_part nsec_diff < 1000000000) × (neg_part nsec_diff < 1000000000)
  nsec_diff_IsSmall = omega (arith, -ℤ_parts, parts_apart)

  sum_IsSmall : IsSmall (pos 1000000000 *ℤ seconds +ℤ nsec_diff)
  sum_IsSmall = omega (
    arith,
    seconds_parts,
    nsec_diff_IsSmall,
    +ℤ_parts,
    parts_apart (pos 1000000000 *ℤ seconds +ℤ nsec_diff),
  )

  partial_IsSmall : IsSmall (pos 1000000000 *ℤ seconds +ℤ end.tv_nsec)
  partial_IsSmall =
      omega (arith, seconds_parts, +ℤ_parts, parts_apart (pos 1000000000 *ℤ seconds +ℤ end.tv_nsec))

  regroup :
      pos 1000000000 *ℤ seconds +ℤ end.tv_nsec -ℤ start.tv_nsec
      ≡ pos 1000000000 *ℤ seconds +ℤ nsec_diff
  regroup = omega int_laws

  sum_eq : pos 1000000000 *ℤ seconds +ℤ nsec_diff ≡ total
  unfolding nanoseconds
  sum_eq = eq_of_parts _ _ (
      omega (
        arith,
        seconds_parts,
        mul_parts 1000000000 end.tv_sec,
        mul_parts 1000000000 start.tv_sec,
        +ℤ_parts,
        -ℤ_parts,
      ))

  module _ {D : Type 0} ⦃d : Double D⦄ (exact : IsExact D) where
    billion_exact : billion ≡ of_int {D = D} (pos 1000000000)
    billion_exact = exact.decimal_zero 1000000000 (omega arith)

    product_exact : billion ⊗ of_int seconds ≡ of_int {D = D} (pos 1000000000 *ℤ seconds)
    product_exact =
        ap (λ b. b ⊗ of_int seconds) billion_exact
        ∙ exact.mul_exact (pos 1000000000) seconds (omega arith) (omega arith) product_IsSmall

    product_exact' : of_int seconds ⊗ billion ≡ of_int {D = D} (pos 1000000000 *ℤ seconds)
    product_exact' =
        ap (λ b. of_int seconds ⊗ b) billion_exact
        ∙ exact.mul_exact seconds (pos 1000000000) (omega arith) (omega arith)
            (rw *ℤ_comm product_IsSmall)
        ∙ ap of_int (*ℤ_comm seconds (pos 1000000000))

    -- `timespec_diff_to_nsecs` of two clock readings less than nine million seconds apart is the
    -- number of nanoseconds between them, without rounding.
    pub timespec_diff_to_nsecs-exact :
        timespec_diff_to_nsecs start end ≡ of_int {D = D} (nanoseconds end -ℤ nanoseconds start)
    unfolding timespec_diff_to_nsecs
    timespec_diff_to_nsecs-exact =
        ap (λ p. p ⊕ of_int nsec_diff) product_exact'
        ∙ exact.add_exact (pos 1000000000 *ℤ seconds) nsec_diff product_IsSmall
            (omega (arith, nsec_diff_IsSmall)) sum_IsSmall
        ∙ ap of_int sum_eq

    -- The expression for an elapsed time that the other programs write out gives the same value.
    pub elapsed-exact : elapsed start end ≡ of_int {D = D} (nanoseconds end -ℤ nanoseconds start)
    unfolding elapsed
    elapsed-exact =
        ap (λ p. p ⊕ of_int end.tv_nsec ⊖ of_int start.tv_nsec) product_exact
        ∙ ap (λ p. p ⊖ of_int start.tv_nsec)
            (exact.add_exact (pos 1000000000 *ℤ seconds) end.tv_nsec product_IsSmall (omega arith)
              partial_IsSmall)
        ∙ exact.sub_exact (pos 1000000000 *ℤ seconds +ℤ end.tv_nsec) start.tv_nsec partial_IsSmall
            (omega arith) (rw regroup sum_IsSmall)
        ∙ ap of_int (regroup ∙ sum_eq)
