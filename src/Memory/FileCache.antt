-- ===== src/Memory/FileCache.antt =====
-- rpi3_bench/file_cache.c: the time to read a mapped file that is in the file cache.
pub mod Files
pub mod Touched
use cse.Base.{String, ◌+◌, ℕ, ◌-◌, ◌*◌, ◌/◌, ◌^◌, [], ◌∷◌, not}
use cse.Base.Int.{ℤ, pos, is_zero, is_minus_one}
use cse.Double.{Double, ◌⊕◌, ◌⊘◌, of_int, decimal}
use cse.Machine.{
  clock_gettime, monotonic_raw, fopen, fputc, fclose, ask, int, double, open_file, mmap, munmap,
  close, M, pure, ◌>>=◌, ◌>>◌, call, value_of, print, assert, for_range,
}
use cse.Common.Setup.{init_test}
use cse.Common.Time.{timespec_diff_to_nsecs}
use cse.Memory.Mapped.{page_size, touch}

module _ {D : Type 0} where
  unfoldable pub write_to_disk : (filename : String) → (num_pages : ℕ) → M D (Unit {0})
  write_to_disk filename num_pages = do
    f ← value_of (fopen filename "w")
    assert (not (is_zero f))
    for_range (page_size * num_pages) 0
        (λ i _. do written ← value_of (fputc i f); assert (not (is_minus_one written))) tt
    call (fclose f)

module _ {D : Type 0} ⦃d : Double D⦄ where
  unfoldable pub measure_fc_access : (mem : ℤ) → (num_pages : ℕ) → M D D
  measure_fc_access mem num_pages = do
    start ← ask (clock_gettime monotonic_raw)
    touch (num_pages + 1) mem num_pages 0
    end ← ask (clock_gettime monotonic_raw)
    pure (timespec_diff_to_nsecs start.time end.time)

  unfoldable pub print_for : (num_bytes : ℕ) → M D (Unit {0})
  print_for num_bytes = do
    let num_pages = num_bytes / 4096
    write_to_disk "test.file" num_pages
    fd ← value_of (open_file "test.file")
    mem ← value_of (mmap (pos (page_size * num_pages)) fd)
    assert (not (is_minus_one mem))
    for_range 3 0 (λ _ _. do _ ← measure_fc_access mem num_pages; pure tt) tt
    read_time ←
        for_range 3 0 (λ _ sum. do time ← measure_fc_access mem num_pages; pure (sum ⊕ time))
          (of_int (pos 0))
    print "%d pages: average page read time: %f cycles/page\n"
        (int (pos num_pages) ∷ double (read_time ⊘ of_int (pos 3) ⊘ decimal 833 3) ∷ [])
    unmapped ← value_of (munmap mem (pos (page_size * num_pages)))
    assert (is_zero unmapped)
    call (close fd)

  unfoldable pub main : M D ℤ
  main = do
    status ← init_test
    assert (is_zero status)
    for_range (28 - 12) 12 (λ fs_bits _. print_for (2 ^ fs_bits)) tt
    pure (pos 0)
