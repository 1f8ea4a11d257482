-- ===== src/Memory/Bandwidth.antt =====
-- rpi3_bench/memory_bandwidth.c: the rate at which memory is written and read.
pub mod Words
pub mod Rates
use cse.Base.{ℕ, ◌*◌, ◌/◌, [], ◌∷◌, if◌then◌else◌}
use cse.Base.Int.{ℤ, pos, is_zero, wrap_int, ◌+ℤ◌}
use cse.Double.{Double, ◌⊖◌, ◌⊗◌, ◌⊘◌, of_int}
use cse.Machine.{
  Timespec, int, double, clock_gettime, monotonic_raw, malloc, free, M, pure, and_then, ◌>>=◌, ◌>>◌,
  fault, load_word, store_word, ask, call, value_of, print, assert, for_range,
}
use cse.Common.{billion, get_time_overhead}
use cse.Common.Setup.{init_test}
use cse.Common.Time.{timespec_diff_to_nsecs}

abbrev pub page_size : ℕ
page_size = 4096

abbrev pub mega : ℕ
mega = 1024 * 1024

abbrev pub sizeof_word : ℕ
sizeof_word = 8

module _ {D : Type 0} where
  -- `mem[index] = word`, which faults for NULL
  unfoldable pub write_word : (mem : ℤ) → (index word : ℕ) → M D (Unit {0})
  write_word mem index word =
      if is_zero mem then (λ k t. fault t) else call (store_word mem index word)

  -- `mem[index]`, which faults for NULL
  unfoldable pub read_word : (mem : ℤ) → (index : ℕ) → M D ℤ
  read_word mem index = if is_zero mem then (λ k t. fault t) else value_of (load_word mem index)

  -- for (int i = first; i < first + n; ++i) mem[i] = i;
  unfoldable pub write_words : (mem : ℤ) → (n first : ℕ) → M D (Unit {0})
  write_words mem n first = for_range n first (λ i _. write_word mem i i) tt

  -- for (int i = first; i < first + n; ++i) dummy += mem[i];
  unfoldable pub read_words : (mem : ℤ) → (n first : ℕ) → (dummy : ℤ) → M D ℤ
  read_words mem n first dummy =
      for_range n first (λ i dummy. do word ← read_word mem i; pure (wrap_int (dummy +ℤ word)))
        dummy

module _ {D : Type 0} ⦃d : Double D⦄ where
  -- bytes per nanosecond
  unfoldable pub rate : (size : ℕ) → (start end : Timespec) → D
  rate size start end =
      of_int (pos (sizeof_word * size))
      ⊘ (timespec_diff_to_nsecs start end ⊖ of_int (pos get_time_overhead))

  unfoldable pub measure_wrmem : (mem : ℤ) → (size : ℕ) → M D D
  measure_wrmem mem size = do
    start ← ask (clock_gettime monotonic_raw)
    write_words mem size 0
    end ← ask (clock_gettime monotonic_raw)
    pure (rate size start.time end.time)

  -- `garbage` is what `dummy` holds at first.
  unfoldable pub measure_rdmem : (garbage : ℤ) → (mem : ℤ) → (size : ℕ) → M D D
  measure_rdmem garbage mem size = do
    start ← ask (clock_gettime monotonic_raw)
    _ ← read_words mem size 0 garbage
    end ← ask (clock_gettime monotonic_raw)
    pure (rate size start.time end.time)

  unfoldable pub print_rdwr : (garbage : ℤ) → (pages : ℕ) → M D (Unit {0})
  print_rdwr garbage pages = do
    let num_words = pages * page_size
    mem ← value_of (malloc (sizeof_word * num_words))
    print "For %d MB:\n" (int (pos (num_words * sizeof_word / mega)) ∷ [])
    for_range 15 0 (λ _ _. do _ ← measure_wrmem mem num_words; pure tt) tt
    write_rate ← measure_wrmem mem num_words
    print "\twrite MB/s: %f\n" (double (write_rate ⊗ billion ⊘ of_int (pos mega)) ∷ [])
    for_range 15 0 (λ _ _. do _ ← measure_rdmem garbage mem num_words; pure tt) tt
    read_rate ← measure_rdmem garbage mem num_words
    print "\tread MB/s:  %f\n" (double (read_rate ⊗ billion ⊘ of_int (pos mega)) ∷ [])
    call (free mem)

  unfoldable pub main : (garbage : ℤ) → M D ℤ
  main garbage = do
    status ← init_test
    assert (is_zero status)
    print_rdwr garbage 1024
    print_rdwr garbage 2048
    print_rdwr garbage 8192
    pure (pos 0)
