-- ===== src/Memory/PageFault.antt =====
-- rpi3_bench/page_fault_access.c: the time of a first access to mapped pages, against later ones.
pub mod Times
pub mod Printed
use cse.Base.{ℕ, ◌*◌, [], ◌∷◌, set, replicate, not}
use cse.Base.Int.{ℤ, pos, is_zero, is_minus_one}
use cse.Double.{Double, ◌⊖◌, ◌⊘◌, of_int, decimal}
use cse.Machine.{
  int, double, open_file, mmap, munmap, close, M, pure, ◌>>=◌, ◌>>◌, call, value_of, print, assert,
  of_option, for_range, write,
}
use cse.Common.Setup.{init_test}
use cse.Common.Stats.{get_mean}
use cse.Memory.Mapped.{page_size, write_to_disk, measure_access}

module _ {D : Type 0} ⦃d : Double D⦄ where
  -- `garbage` is what `hot_time` holds at first.
  unfoldable pub print_pages : (garbage : D) → (num_pages : ℕ) → M D (Unit {0})
  print_pages garbage num_pages = do
    write_to_disk "test.file" num_pages
    fd ← value_of (open_file "test.file")
    mem ← value_of (mmap (pos (page_size * num_pages)) fd)
    assert (not (is_minus_one mem))
    cold_time ← measure_access mem num_pages
    for_range 15 0 (λ _ _. do _ ← measure_access mem num_pages; pure tt) tt
    hot_time ←
        for_range 30 0 (λ i hot. do time ← measure_access mem num_pages; write hot i time)
          (replicate 30 garbage)
    avg ← of_option (get_mean hot_time 30)
    std ← of_option (get_mean hot_time 30)
    print "%d pages: page fault timing: %fK cycles/page, std %f\n" (
        int (pos num_pages)
        ∷ double ((cold_time ⊖ avg) ⊘ decimal 833 3 ⊘ of_int (pos 1000))
        ∷ double (std ⊘ decimal 833 3 ⊘ decimal 833 3 ⊘ of_int (pos 1000) ⊘ of_int (pos 1000))
        ∷ [])
    unmapped ← value_of (munmap mem (pos (page_size * num_pages)))
    assert (is_zero unmapped)
    call (close fd)

  unfoldable pub main : (garbage : D) → M D ℤ
  main garbage = do
    status ← init_test
    assert (is_zero status)
    print_pages garbage 1024
    print_pages garbage 2048
    print_pages garbage 4096
    print_pages garbage 8192
    pure (pos 0)
