-- ===== src/Memory/Mapped.antt =====
-- What page_fault_access.c and file_cache.c do with a mapped file: the first's functions, and the loop
-- that both have. An access to the mapping is the call `load`; the sum of the values, which
-- nothing reads, is left out.
pub mod Touch
use cse.Base.{ℕ, zero, suc, ◌+◌, ◌*◌, String, not, ltb, if◌then◌else◌}
use cse.Base.Int.{ℤ, is_zero, is_minus_one}
use cse.Double.{Double}
use cse.Machine.{
  clock_gettime, monotonic_raw, fopen, fputc, fclose, load, M, looping, pure, and_then, ◌>>=◌, ◌>>◌,
  ask, call, value_of, assert, for_range,
}
use cse.Common.Time.{timespec_diff_to_nsecs}

abbrev pub page_size : ℕ
page_size = 4096

module _ {D : Type 0} where
  -- for (int i = first; i < num_pages; i += PAGE_SIZE) dummy += mem[i];  with fuel
  unfoldable pub touch : (fuel : ℕ) → (mem : ℤ) → (num_pages i : ℕ) → M D (Unit {0})
  touch zero mem num_pages i = λ k t. looping t
  touch (suc fuel) mem num_pages i =
      if ltb i num_pages
      then (do call (load mem i); touch fuel mem num_pages (i + page_size))
      else pure tt

  unfoldable pub write_to_disk : (filename : String) → (num_pages : ℕ) → M D (Unit {0})
  write_to_disk filename num_pages = do
    f ← value_of (fopen filename "w")
    assert (not (is_zero f))
    for_range (page_size * num_pages) 0
        (λ i _. do written ← value_of (fputc i f); assert (not (is_minus_one written))) tt
    call (fclose f)

module _ {D : Type 0} ⦃d : Double D⦄ where
  -- `measure_pf_access` of page_fault_access.c
  unfoldable pub measure_access : (mem : ℤ) → (num_pages : ℕ) → M D D
  measure_access mem num_pages = do
    start ← ask (clock_gettime monotonic_raw)
    touch (num_pages + 1) mem num_pages 0
    end ← ask (clock_gettime monotonic_raw)
    pure (timespec_diff_to_nsecs start.time end.time)
