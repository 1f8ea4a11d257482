-- ===== src/Overhead/Procedure/Compare.antt =====
-- The comparison by which procedure_call.c sorts is an order.
use cse.Base.{◌≡◌, ◌≢◌, refl, ◌⊎◌, inl, inr, false, Bool-cases}
use cse.Base.Int.{pos, negsuc}
use cse.Double.{Double, IsOrdered, lt}
use cse.Overhead.Procedure.{double_compare}

module _ {D : Type 0} ⦃d : Double D⦄ {IsNumber : D → Type 0} (ordered : IsOrdered D IsNumber) where
  -- swapped arguments
  double_compare-swapped :
      (a b : D)
      → ((double_compare a b ≡ negsuc 0) × (double_compare b a ≡ pos 1))
        ⊎ ((double_compare a b ≡ pos 0) × (double_compare b a ≡ pos 0))
        ⊎ ((double_compare a b ≡ pos 1) × (double_compare b a ≡ negsuc 0))
  unfolding double_compare
  double_compare-swapped a b = elim (Bool-cases (lt a b)) [
    | inl e ↦ let f = ordered.lt_asymm a b e in rw (e, f) (inl (refl, refl))
    | inr e ↦ elim (Bool-cases (lt b a)) [
      | inl f ↦ rw (e, f) (inr (inr (refl, refl)))
      | inr f ↦ rw (e, f) (inr (inl (refl, refl)))
    ]
  ]

  not_above : (a b : D) → double_compare a b ≢ pos 1 → lt b a ≡ false
  unfolding double_compare
  not_above a b h = elim (Bool-cases (lt a b)) [
    | inl e ↦ ordered.lt_asymm a b e
    | inr e ↦ elim (Bool-cases (lt b a)) [ inl f ↦ absurd (h (rw (e, f) refl)) | inr f ↦ f ]
  ]

  -- three numbers in order
  double_compare-transitive :
      (a b c : D)
      → IsNumber a
      → IsNumber b
      → IsNumber c
      → double_compare a b ≢ pos 1
      → double_compare b c ≢ pos 1
      → double_compare a c ≢ pos 1
  unfolding double_compare
  double_compare-transitive a b c na nb nc h g =
      let e = ordered.le_trans a b c na nb nc (not_above a b h) (not_above b c g) in
      elim (Bool-cases (lt a c)) [ inl f ↦ rw f (λ x. cc) | inr f ↦ rw (f, e) (λ x. cc) ]

  -- Of three numbers, if the first is not above the second nor the second above the third, then
  -- `double_compare` puts the first below the third, and the third above the first, or it finds both equal
  -- whichever comes first.
  pub double_compare-order :
      (a b c : D)
      → IsNumber a
      → IsNumber b
      → IsNumber c
      → double_compare a b ≢ pos 1
      → double_compare b c ≢ pos 1
      → ((double_compare a c ≡ negsuc 0) × (double_compare c a ≡ pos 1))
        ⊎ ((double_compare a c ≡ pos 0) × (double_compare c a ≡ pos 0))
  double_compare-order a b c na nb nc h g = elim (double_compare-swapped a c) [
    | inl below ↦ inl below
    | inr (inl equal) ↦ inr equal
    | inr (inr (above, _)) ↦ absurd (double_compare-transitive a b c na nb nc h g above)
  ]
