-- ===== src/Memory/Ram.antt =====
-- rpi3_bench/ram_access_time.c: the time of an access at a random place of a block, for blocks of
-- 4 bytes to 512 MB.
pub mod Strides
pub mod Sizes
pub mod Printed
pub mod Whole
use cse.Base.{
  ℕ, zero, suc, ◌+◌, ◌-◌, ◌*◌, ◌/◌, ◌%◌, ◌^◌, List, [], ◌∷◌, set, replicate, not, ltb,
  if◌then◌else◌,
}
use cse.Base.Int.{ℤ, pos, negsuc, is_zero, to_unsigned}
use cse.Double.{Double, ◌⊖◌, ◌⊗◌, of_int, to_ullong}
use cse.Machine.{
  Timespec, int, double, clock_gettime, monotonic_raw, time, srand, rand, malloc, memset, free,
  load, M, pure, and_then, ◌>>=◌, ◌>>◌, ask, call, value_of, print, exit, exit_failure, read,
  for_range, fill,
}
use cse.Common.{get_time_overhead, for_loop_overhead, rand_overhead}
use cse.Common.Setup.{init_test}
use cse.Common.Time.{timespec_diff_to_nsecs, nsecs_to_cycles}

abbrev pub test_count : ℕ
test_count = 100000

abbrev pub max_array_size_power : ℕ
max_array_size_power = 30

abbrev pub start_array_size_power : ℕ
start_array_size_power = 2

abbrev pub size_len : ℕ
size_len = max_array_size_power - start_array_size_power

abbrev pub int_max : ℤ
int_max = pos (2 ^ 31 - 1)

abbrev pub sizeof_int : ℕ
sizeof_int = 4

-- for (power_index = START_ARRAY_SIZE_POWER; power_index < MAX_ARRAY_SIZE_POWER; power_index++)
--     sizes[power_index - START_ARRAY_SIZE_POWER] = pow(2, power_index);
unfoldable pub fill_sizes : {D : Type 0} → List ℕ → M D (List ℕ)
fill_sizes sizes =
    fill start_array_size_power (λ power_index. 2 ^ power_index) size_len start_array_size_power
      sizes

-- the integer part of the binary logarithm, for numbers below 2 ^ fuel
unfoldable pub log2 : (fuel : ℕ) → ℕ → ℕ
log2 zero n = 0
log2 (suc fuel) n = let rest = log2 fuel (n / 2) in if ltb n 2 then 0 else rest + 1

-- The loop's overhead is multiplied by the cost of `rand`, as in the source.
unfoldable pub total_time : (D : Type 0) ⦃d : Double D⦄ → (start end : Timespec) → ℕ
total_time D start end = to_ullong (
    timespec_diff_to_nsecs {D = D} start end
    ⊖ of_int (pos get_time_overhead)
    ⊖ for_loop_overhead ⊗ of_int (pos test_count)
    ⊖ for_loop_overhead ⊗ rand_overhead)

module _ {D : Type 0} where
  -- One round of the timed loop: `sizeof` is unsigned, so the remainder is one of unsigned numbers.
  unfoldable pub access : (memory_pointer : ℤ) → (size : ℕ) → M D (Unit {0})
  access memory_pointer size = do
    random ← value_of rand
    let stride_len = to_unsigned random % (size / sizeof_int)
    call (load memory_pointer stride_len)

module _ {D : Type 0} ⦃d : Double D⦄ where
  unfoldable pub test_size : (size : ℕ) → M D (Unit {0})
  test_size size = do
    memory_pointer ← value_of (malloc size)
    if is_zero memory_pointer
        then (do
          print "FAILURE Couldn't allocate memory of %i bytes\n" (int (pos size) ∷ [])
          exit exit_failure)
        else do
          call (memset memory_pointer int_max size)
          start ← ask (clock_gettime monotonic_raw)
          for_range test_count 0 (λ _ _. access memory_pointer size) tt
          end ← ask (clock_gettime monotonic_raw)
          call (free memory_pointer)
          let total = total_time D start.time end.time
          print "%i\t%i\t%f\t%llu\n" (
              int (pos size)
              ∷ int (pos (log2 31 size))
              ∷ double (of_int (pos (total / test_count)))
              ∷ int (pos (nsecs_to_cycles D total / test_count))
              ∷ [])

  -- `garbage` is what `sizes` holds at first.
  unfoldable pub test_4bytes_to_500mbytes : (garbage : ℕ) → M D (Unit {0})
  test_4bytes_to_500mbytes garbage = do
    sizes ← fill_sizes (replicate size_len garbage)
    seed ← value_of time
    call (srand seed)
    for_range size_len 0 (λ i _. do size ← read sizes i; test_size size) tt

  unfoldable pub main : (garbage : ℕ) → M D ℤ
  main garbage = do
    status ← init_test
    if not (is_zero status)
        then (do print "FAILURE init_test" []; exit exit_failure)
        else do test_4bytes_to_500mbytes garbage; exit (pos 0)
