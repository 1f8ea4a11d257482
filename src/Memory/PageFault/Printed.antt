-- ===== src/Memory/PageFault/Printed.antt =====
-- What `print_pages` prints, and the program as a whole.
use cse.Base.{
  ◌++◌, sym, ap, ◌∙◌, ℕ, ◌*◌, ◌≡◌, refl, true, false, not, String, List, [], ◌∷◌, length, leb, take,
  arith,
}
use cse.Base.Int.{ℤ, pos, is_zero, is_minus_one}
use cse.Double.{Double, ◌⊖◌, ◌⊘◌, of_int, decimal}
use cse.Memory.PageFault.Times.{measure_access-OneTime, warm_up-Read, hot_times-Stored}
use cse.Machine.{
  times, Run, Timespec, readings, int, double, Call, fopen, fputc, open_file, mmap, munmap, printf,
  close, Kernel, Trace, done, log, Ends, Ends-for_range, value_of, assert, ◌>>=◌,
}
use cse.Common.Time.{timespec_diff_to_nsecs}
use cse.Common.Stats.Mean.{mean, get_mean-mean}
use cse.Memory.Mapped.{page_size, write_to_disk}
use cse.Memory.PageFault.{print_pages, main}
use cse.Common.Setup.{init_test}
use mathlib.Core.Path.{subst}

-- Files can be written and mapped.
pub record HasFiles {D : Type 0} (k : Kernel D) : Type 0 where
  pub opens : (t : Trace D) (name mode : String) → is_zero (k t (fopen name mode)).value ≡ false
  pub writes : (t : Trace D) (byte : ℕ) (f : ℤ) → is_minus_one (k t (fputc byte f)).value ≡ false
  pub maps : (t : Trace D) (size fd : ℤ) → is_minus_one (k t (mmap size fd)).value ≡ false
  pub unmaps : (t : Trace D) (mem size : ℤ) → is_zero (k t (munmap mem size)).value ≡ true

-- The messages and calls that end `print_pages`: both numbers come from the mean of the hot times.
abbrev pub report : {D : Type 0} ⦃d : Double D⦄ → (num_pages : ℕ) → (cold avg : D) → Call D
report num_pages cold avg = printf "%d pages: page fault timing: %fK cycles/page, std %f\n" (
    int (pos num_pages)
    ∷ double ((cold ⊖ avg) ⊘ decimal 833 3 ⊘ of_int (pos 1000))
    ∷ double (avg ⊘ decimal 833 3 ⊘ decimal 833 3 ⊘ of_int (pos 1000) ⊘ of_int (pos 1000))
    ∷ [])

-- A run of `print_pages` that ends, from the trace `t` on. It reads the clock around one measurement, around
-- fifteen and around thirty; `start` and `stop` are the first two readings, `hot` the last sixty.
pub record Reported {D : Type 0} ⦃d : Double D⦄ (k : Kernel D) (num_pages : ℕ) (t : Trace D)
    (run : Run D (Unit {0})) : Type 0 where
  pub start : Timespec
  pub stop : Timespec
  pub warm : List Timespec
  pub hot : List Timespec
  pub mem : ℤ
  pub fd : ℤ
  pub measured : Trace D
  pub read : readings measured ≡ hot ++ (warm ++ stop ∷ start ∷ readings t)
  pub warm_count : length warm ≡ 30
  pub hot_count : length hot ≡ 60
  pub hot_times : length (times {A = D} timespec_diff_to_nsecs hot) ≡ 30
  pub result :
      run
      ≡ done tt (
          log k
            (log k
              (log k measured (
                report num_pages
                  (timespec_diff_to_nsecs start stop)
                  (mean 30 (take 30 (times {A = D} timespec_diff_to_nsecs hot)))))
              (munmap mem (pos (page_size * num_pages))))
            (close fd))

module _ {D : Type 0} ⦃d : Double D⦄ (k : Kernel D) (files : HasFiles k) where
  written :
      (name : String) (num_pages : ℕ) (t : Trace D)
      → Ends (λ _ t'. readings t' ≡ readings t) (write_to_disk name num_pages k t)
  unfolding write_to_disk readings
  written name num_pages t =
      let f = (k t (fopen name "w")).value in
      let (a, t', run, e) =
        Ends-for_range k (λ _ _ s. readings s ≡ readings t)
          (λ i _. (do written ← value_of (fputc i f); assert (not (is_minus_one written))))
          (page_size * num_pages) (λ i _ s _ g. rw (files.writes s i f) (tt, _, refl, g))
          (page_size * num_pages) 0 tt (log k t (fopen name "w")) (omega arith) refl in
      rw (files.opens t name "w", run) (tt, _, refl, e)

  -- If files can be written and mapped, `print_pages` ends, and reports what it has measured.
  pub print_pages-mean :
      (garbage : D) (num_pages : ℕ) (t : Trace D)
      → Reported k num_pages t (print_pages garbage num_pages k t)
  unfolding print_pages readings
  print_pages-mean garbage num_pages t =
      let (_, t1, run1, e1) = written "test.file" num_pages t in
      let fd = (k t1 (open_file "test.file")).value in
      let t2 = log k t1 (open_file "test.file") in
      let size = pos (page_size * num_pages) in
      let mem = (k t2 (mmap size fd)).value in
      let t3 = log k t2 (mmap size fd) in
      let (cold, t4, run4, (start, stop, e4, g)) = measure_access-OneTime k mem num_pages t3 in
      let (_, t5, run5, (warm, e5, warm_count)) = warm_up-Read k mem num_pages t4 in
      let (stored, t6, run6, (hot, e6, hot_count, same, len)) =
        hot_times-Stored k mem num_pages garbage t5 in
      let avg = mean 30 (take 30 stored) in
      let enough : leb 30 (length stored) ≡ true = ground (arith, len) in
      let unmapped = files.unmaps (log k t6 (report num_pages cold avg)) mem size in
      record {
        start = start;
        stop = stop;
        warm = warm;
        hot = hot;
        mem = mem;
        fd = fd;
        measured = t6;
        read = rw (e6, e5, e4, e1) refl;
        warm_count = warm_count;
        hot_count = hot_count;
        hot_times = sym (ap length same) ∙ len;
        result =
            rw
              (
                run1,
                files.maps t2 size fd,
                run4,
                run5,
                run6,
                get_mean-mean stored 30,
                enough,
                unmapped,
                g,
                same,
              )
              refl;
      }

  print_pages-ends :
      (garbage : D) (num_pages : ℕ) (t : Trace D)
      → (t' : Trace D) × (print_pages garbage num_pages k t ≡ done tt t')
        × Reported k num_pages t (done tt t')
  print_pages-ends garbage num_pages t =
      let r = print_pages-mean garbage num_pages t in
      (_, r.result, subst (λ run. Reported k num_pages t run) r.result r)

  -- If files can be written and mapped and `init_test` succeeds, page_fault_access.c returns 0. It reports on
  -- files of 1024, 2048, 4096 and 8192 pages in this order, and each report prints for the standard deviation
  -- the mean of its thirty hot times, from which it also computes the first number; each of the thirty is the
  -- time between two of the last sixty readings of the clock, and the cold time that between the first two.
  pub main-Reported :
      (garbage : D) (t t0 : Trace D)
      → init_test k t ≡ done (pos 0) t0
      → (t1 t2 t3 t4 : Trace D) × (main garbage k t ≡ done (pos 0) t4)
        × Reported k 1024 t0 (done tt t1)
        × Reported k 2048 t1 (done tt t2)
        × Reported k 4096 t2 (done tt t3)
        × Reported k 8192 t3 (done tt t4)
  unfolding main
  main-Reported garbage t t0 started =
      let (t1, run1, r1) = print_pages-ends garbage 1024 t0 in
      let (t2, run2, r2) = print_pages-ends garbage 2048 t1 in
      let (t3, run3, r3) = print_pages-ends garbage 4096 t2 in
      let (t4, run4, r4) = print_pages-ends garbage 8192 t3 in
      (t1, t2, t3, t4, rw (started, run1, run2, run3, run4) refl, r1, r2, r3, r4)
