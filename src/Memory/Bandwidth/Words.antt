-- ===== src/Memory/Bandwidth/Words.antt =====
-- The loops of memory_bandwidth.c over a block: which words they write and read, in which order.
use cse.Base.{ℕ, zero, suc, ◌+◌, ◌<◌, ◌≡◌, refl, true, false, List, ◌∷◌, arith}
use cse.Base.Int.{ℤ, is_zero}
use cse.Double.{Double}
use cse.Machine.{
  Call, store_word, load_word, clock_gettime, monotonic_raw, Kernel, Trace, fault, log, calls, Ends,
  Ends-and_then, Ends-for_range, for_range,
}
use cse.Memory.Bandwidth.{
  write_word, read_word, write_words, read_words, rate, measure_wrmem, measure_rdmem,
}

abbrev pub clock : {D : Type 0} → Call D
clock = clock_gettime monotonic_raw

-- each of the words 0 to `n` - 1 has been written with its index, in this order, behind the calls `cs`
unfoldable pub stores : {D : Type 0} → (mem : ℤ) → (n : ℕ) → List (Call D) → List (Call D)
stores mem zero cs = cs
stores mem (suc n) cs = store_word mem n n ∷ stores mem n cs

-- each of the words 0 to `n` - 1 has been read, in this order, behind the calls `cs`
unfoldable pub loads : {D : Type 0} → (mem : ℤ) → (n : ℕ) → List (Call D) → List (Call D)
loads mem zero cs = cs
loads mem (suc n) cs = load_word mem n ∷ loads mem n cs

-- A measurement: between two readings of the clock there have been the accesses `made`, and `result` is the
-- rate that the readings give.
pub record Measurement {D : Type 0} ⦃d : Double D⦄ (k : Kernel D)
    (made : List (Call D) → List (Call D)) (size : ℕ) (t : Trace D) (result : D) (t' : Trace D)
    : Type 0 where
  pub after : Trace D
  pub called : calls after ≡ made (clock ∷ calls t)
  pub finished : t' ≡ log k after clock
  pub measured : result ≡ rate size (k t clock).time (k after clock).time

module _ {D : Type 0} ⦃d : Double D⦄ (k : Kernel D) (mem : ℤ) (size : ℕ) where
  module _ (found : is_zero mem ≡ false) where
    write_words-stores :
        (t : Trace D)
        → Ends (λ _ t'. calls t' ≡ stores mem size (calls t)) (write_words mem size 0 k t)
    unfolding write_words write_word stores calls
    write_words-stores t =
        Ends-for_range k (λ i _ t'. calls t' ≡ stores mem i (calls t)) (λ i _. write_word mem i i)
          size
          (λ i _ t' h e.
            let next : i + 1 ≡ suc i = omega arith in rw (found, next) (tt, _, refl, rw e refl))
          size 0 tt t (omega arith) refl

    read_words-loads :
        (dummy : ℤ) (t : Trace D)
        → Ends (λ _ t'. calls t' ≡ loads mem size (calls t)) (read_words mem size 0 dummy k t)
    unfolding read_words read_word loads calls
    read_words-loads dummy t =
        Ends-for_range k (λ i _ t'. calls t' ≡ loads mem i (calls t)) _ size
          (λ i _ t' h e.
            let next : i + 1 ≡ suc i = omega arith in rw (found, next) (_, _, refl, rw e refl))
          size 0 dummy t (omega arith) refl

    -- `measure_wrmem` on a block ends, and has written every word of it.
    pub measure_wrmem-stores :
        (t : Trace D) → Ends (Measurement k (stores mem size) size t) (measure_wrmem mem size k t)
    unfolding measure_wrmem calls
    measure_wrmem-stores t = Ends-and_then (write_words-stores (log k t clock)) λ _ after called.
        (_, _, refl, record { after = after; called = called; finished = refl; measured = refl })

    -- `measure_rdmem` on a block ends, and has read every word of it.
    pub measure_rdmem-loads :
        (garbage : ℤ) (t : Trace D)
        → Ends (Measurement k (loads mem size) size t) (measure_rdmem garbage mem size k t)
    unfolding measure_rdmem calls
    measure_rdmem-loads garbage t =
        Ends-and_then (read_words-loads garbage (log k t clock)) λ _ after called.
          (_, _, refl, record { after = after; called = called; finished = refl; measured = refl })

-- On NULL `measure_wrmem` faults at its first write, right after its first reading of the clock.
pub measure_wrmem-null :
    {D : Type 0} ⦃d : Double D⦄ (k : Kernel D) (mem : ℤ) (size : ℕ) (t : Trace D)
    → 0 < size
    → is_zero mem ≡ true
    → measure_wrmem mem size k t ≡ fault (log k t clock)
unfolding measure_wrmem write_words write_word for_range
measure_wrmem-null k mem zero t some_words null = absurd (omega arith)
measure_wrmem-null k mem (suc size) t some_words null = rw null refl
