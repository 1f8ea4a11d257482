-- ===== src/Net/Bandwidth/Minimum.antt =====
-- The loop of `tcp_peak_bandwidth` finds the shortest of its hundred times.
use cse.Base.{
  ℕ, zero, suc, ◌+◌, ◌*◌, ◌≤◌, ◌≡◌, refl, true, false, ◌⊎◌, inl, inr, List, [], ◌∷◌, ◌++◌, length,
  ltb, if◌then◌else◌, arith,
}
use native.Mathlib.Decide.{dec_lt}
use cse.Base.Int.{ℤ, pos}
use cse.Double.{Double}
use cse.Machine.{
  Timespec, Kernel, Trace, log, memset, send, clock_gettime, monotonic_raw, readings, Ends,
  Ends-for_range,
}
use cse.Net.Bandwidth.{test_count, send_data_byte_size, ullong_max, send_time, send_once, send_all}

-- The times between successive pairs of readings, newest first.
unfoldable pub times : (D : Type 0) ⦃d : Double D⦄ → List Timespec → List ℕ
times D (stop ∷ start ∷ older) = send_time D start stop ∷ times D older
times D _ = []

abbrev pub AtMostAll : ℕ → List ℕ → Type 0
AtMostAll m [] = Unit {0}
AtMostAll m (x ∷ xs) = (m ≤ x) × AtMostAll m xs

abbrev pub Among : ℕ → List ℕ → Type 0
Among m [] = ⊥
Among m (x ∷ xs) = (m ≡ x) ⊎ Among m xs

AtMostAll-le : (a b : ℕ) (xs : List ℕ) → a ≤ b → AtMostAll b xs → AtMostAll a xs
AtMostAll-le a b [] h all = tt
AtMostAll-le a b (x ∷ xs) h all = (omega arith, AtMostAll-le a b xs h all.1)

-- `m` is the least of `xs` and ULLONG_MAX.
pub record Least (m : ℕ) (xs : List ℕ) : Type 0 where
  pub at_most_all : AtMostAll m xs
  pub one_of : (m ≡ ullong_max) ⊎ Among m xs

Least-cons : (m x : ℕ) (xs : List ℕ) → Least m xs → Least (if ltb x m then x else m) (x ∷ xs)
Least-cons m x xs least = elim (dec_lt x m) [
  | yes lt ↦
      let e : ltb x m ≡ true = ground arith in
      rw e (record {
        at_most_all = (omega arith, AtMostAll-le x m xs (omega arith) least.at_most_all);
        one_of = inr (inl refl);
      })
  | no ge ↦
      let e : ltb x m ≡ false = ground arith in
      rw e (record { at_most_all = (omega arith, least.at_most_all); one_of = ground arith })
]

-- The trace of `n` messages from the trace `t` on, each sent between two readings of the clock, from a buffer
-- that has been filled before.
unfoldable pub sends : {D : Type 0} → Kernel D → (sock buffer : ℤ) → (n : ℕ) → Trace D → Trace D
sends k sock buffer zero t = t
sends k sock buffer (suc n) t =
    let filled = log k (sends k sock buffer n t) (memset buffer (pos b'b') 12500000) in
    log k (log k (log k filled (clock_gettime monotonic_raw)) (send sock 12500000))
      (clock_gettime monotonic_raw)

module _ {D : Type 0} ⦃d : Double D⦄ (k : Kernel D) (sock buffer : ℤ) (t : Trace D) where
  -- after `i` rounds
  abbrev Rounds : ℕ → ℕ → Trace D → Type 0
  Rounds i m t' =
      (new : List Timespec) × (readings t' ≡ new ++ readings t)
      × (length new ≡ 2 * i)
      × Least m (times D new)
      × (t' ≡ sends k sock buffer i t)

  round :
      (i m : ℕ) (s : Trace D) → Rounds i m s → Ends (Rounds (i + 1)) (send_once sock buffer m k s)
  unfolding send_once readings times sends
  round i m s (new, e, len, least, called) =
      let next : i + 1 ≡ suc i = omega arith in
      let s1 = log k s (memset buffer (pos b'b') send_data_byte_size) in
      let start = k s1 (clock_gettime monotonic_raw) in
      let s2 = log k (log k s1 (clock_gettime monotonic_raw)) (send sock send_data_byte_size) in
      let stop = k s2 (clock_gettime monotonic_raw) in
      (
        _,
        _,
        refl,
        (
          stop.time ∷ start.time ∷ new,
          rw e,
          omega arith,
          Least-cons m (send_time D start.time stop.time) (times D new) least,
          rw (next, called) refl,
        ),
      )

  -- The loop ends after two hundred readings of the clock, and returns the least of the hundred
  -- times between the readings before and after each `send`, and ULLONG_MAX.
  pub send_all-Least :
      Ends
        (λ m t'.
          (new : List Timespec) × (readings t' ≡ new ++ readings t)
          × (length new ≡ 2 * test_count)
          × Least m (times D new)
          × (t' ≡ sends k sock buffer test_count t))
        (send_all sock buffer k t)
  unfolding send_all times sends
  send_all-Least =
      Ends-for_range k Rounds (λ _ m. send_once sock buffer m) test_count
        (λ i m s _ r. round i m s r) test_count 0 ullong_max t (omega arith)
        ([], refl, refl, record { at_most_all = tt; one_of = inl refl }, refl)
