-- ===== src/Memory/FileCache/Files.antt =====
-- One of the files of file_cache.c: it is written, mapped, measured six times, and reported.
use cse.Base.{ℕ, zero, suc, ◌+◌, ◌*◌, ◌/◌, ◌^◌, ◌≡◌, refl, ap, not, List, [], ◌∷◌, arith}
use cse.Base.Int.{ℤ, pos, is_minus_one}
use cse.Double.{Double, ◌⊕◌, ◌⊘◌, of_int, decimal}
use cse.Machine.{
  Call, int, double, printf, clock_gettime, monotonic_raw, fopen, fputc, fclose, open_file, mmap,
  munmap, close, Kernel, Trace, log, calls, pure, assert, value_of, for_range, ◌>>=◌, Ends,
  Ends-for_range,
}
use cse.Common.Time.{timespec_diff_to_nsecs}
use cse.Memory.Mapped.{page_size}
use cse.Memory.Mapped.Touch.{loads, touch-loads}
use cse.Memory.PageFault.Printed.{HasFiles}
use cse.Memory.FileCache.{write_to_disk, measure_fc_access, print_for}

-- the bytes that are written one by one, before the calls `cs`
unfoldable pub puts : {D : Type 0} → (f : ℤ) → (n : ℕ) → List (Call D) → List (Call D)
puts f zero cs = cs
puts f (suc n) cs = fputc n f ∷ puts f n cs

module _ {D : Type 0} ⦃d : Double D⦄ (k : Kernel D) where
  -- One access for every 4096 pages or part of them, between two readings of the clock, whose difference is the
  -- time.
  pub record Measurement (mem : ℤ) (num_pages : ℕ) (t : Trace D) (time : D) (t' : Trace D)
      : Type 0 where
    pub after : Trace D
    pub touched :
        calls after
        ≡ loads mem ((num_pages + 4095) / 4096) 0 (clock_gettime monotonic_raw ∷ calls t)
    pub finished : t' ≡ log k after (clock_gettime monotonic_raw)
    pub timed :
        time
        ≡ timespec_diff_to_nsecs
            (k t (clock_gettime monotonic_raw)).time
            (k after (clock_gettime monotonic_raw)).time

  -- `n` measurements, and the sum of their times
  abbrev pub Measurements : (mem : ℤ) → (num_pages n : ℕ) → Trace D → D → Trace D → Type 0
  Measurements mem num_pages zero t sum t' = (sum ≡ of_int (pos 0)) × (t' ≡ t)
  Measurements mem num_pages (suc n) t sum t' =
      (earlier time : D) × (u : Trace D) × Measurements mem num_pages n t earlier u
      × Measurement mem num_pages u time t'
      × (sum ≡ earlier ⊕ time)

  abbrev pub page_line : (num_pages : ℕ) → (sum : D) → Call D
  page_line num_pages sum =
      printf "%d pages: average page read time: %f cycles/page\n"
        (int (pos num_pages) ∷ double (sum ⊘ of_int (pos 3) ⊘ decimal 833 3) ∷ [])

  -- Between the two traces a file has been written byte by byte, mapped, measured three times for nothing and
  -- three times for its line, and unmapped.
  pub record FileMeasured (num_pages : ℕ) (t t' : Trace D) : Type 0 where
    pub f : ℤ
    pub fd : ℤ
    pub mem : ℤ
    pub dropped : D
    pub sum : D
    pub written : Trace D
    pub mapped : Trace D
    pub warm : Trace D
    pub hot : Trace D
    pub filled :
        calls written ≡ fclose f ∷ puts f (page_size * num_pages) (fopen "test.file" "w" ∷ calls t)
    pub at :
        mapped
        ≡ log k (log k written (open_file "test.file")) (mmap (pos (page_size * num_pages)) fd)
    pub warmed : Measurements mem num_pages 3 mapped dropped warm
    pub measured : Measurements mem num_pages 3 warm sum hot
    pub finished :
        t'
        ≡ log k
            (log k (log k hot (page_line num_pages sum)) (munmap mem (pos (page_size * num_pages))))
            (close fd)

  -- the first `i` files, of 1, 2, 4 and so on pages
  abbrev pub FilesMeasured : ℕ → Trace D → Trace D → Type 0
  FilesMeasured zero t t' = t' ≡ t
  FilesMeasured (suc i) t t' = (u : Trace D) × FilesMeasured i t u × FileMeasured (2 ^ i) u t'

  measure-Measurement :
      (mem : ℤ) (num_pages : ℕ) (t : Trace D)
      → Ends (λ time t'. Measurement mem num_pages t time t') (measure_fc_access mem num_pages k t)
  unfolding measure_fc_access calls
  measure-Measurement mem num_pages t =
      let (after, run, called) =
        touch-loads k mem num_pages (num_pages + 1) ((num_pages + 4095) / 4096) 0
          (log k t (clock_gettime monotonic_raw)) (omega arith) (omega arith) (omega arith) in
      rw run (_, _, refl, record { after = after; touched = called; finished = refl; timed = refl })

  three_warm :
      (mem : ℤ) (num_pages : ℕ) (t : Trace D)
      → Ends
          (λ _ t'. (dropped : D) × Measurements mem num_pages 3 t dropped t')
          (for_range 3 0 (λ _ _. (do _ ← measure_fc_access mem num_pages; pure tt)) tt k t)
  three_warm mem num_pages t =
      Ends-for_range k (λ i _ u. (sum : D) × Measurements mem num_pages i t sum u)
        (λ _ _. (do _ ← measure_fc_access mem num_pages; pure tt)) 3
        (λ i _ u _ (sum, before).
          let (time, u', run, m) = measure-Measurement mem num_pages u in
          let next : i + 1 ≡ suc i = omega arith in
          rw (run, next) (tt, u', refl, (sum ⊕ time, (sum, time, u, before, m, refl))))
        3 0 tt t refl (of_int (pos 0), (refl, refl))

  three_hot :
      (mem : ℤ) (num_pages : ℕ) (t : Trace D)
      → Ends
          (λ sum t'. Measurements mem num_pages 3 t sum t')
          (for_range 3 0
            (λ _ sum. (do time ← measure_fc_access mem num_pages; pure (sum ⊕ time)))
            (of_int (pos 0))
            k
            t)
  three_hot mem num_pages t =
      Ends-for_range k (λ i sum u. Measurements mem num_pages i t sum u)
        (λ _ sum. (do time ← measure_fc_access mem num_pages; pure (sum ⊕ time))) 3
        (λ i sum u _ before.
          let (time, u', run, m) = measure-Measurement mem num_pages u in
          let next : i + 1 ≡ suc i = omega arith in
          rw (run, next) (sum ⊕ time, u', refl, (sum, time, u, before, m, refl)))
        3 0 (of_int (pos 0)) t refl (refl, refl)

  module _ (files : HasFiles k) where
    write_to_disk-puts :
        (num_pages : ℕ) (t : Trace D)
        → Ends
            (λ _ t'.
              (f : ℤ) × (calls t'
                ≡ fclose f ∷ puts f (page_size * num_pages) (fopen "test.file" "w" ∷ calls t)))
            (write_to_disk "test.file" num_pages k t)
    unfolding write_to_disk calls puts
    write_to_disk-puts num_pages t =
        let f = (k t (fopen "test.file" "w")).value in
        let opened = log k t (fopen "test.file" "w") in
        let (_, t', run, e) =
          Ends-for_range k (λ i _ u. calls u ≡ puts f i (calls opened))
            (λ i _. (do written ← value_of (fputc i f); assert (not (is_minus_one written))))
            (page_size * num_pages)
            (λ i _ u _ g.
              let next : i + 1 ≡ suc i = omega arith in
              rw (files.writes u i f, next) (tt, _, refl, ap (λ cs. fputc i f ∷ cs) g))
            (page_size * num_pages) 0 tt opened (omega arith) refl in
        rw (files.opens t "test.file" "w", run) (tt, _, refl, (f, ap (λ cs. fclose f ∷ cs) e))

    pub print_for-FileMeasured :
        (num_bytes : ℕ) (t : Trace D)
        → Ends (λ _ t'. FileMeasured (num_bytes / 4096) t t') (print_for num_bytes k t)
    unfolding print_for
    print_for-FileMeasured num_bytes t =
        let num_pages = num_bytes / 4096 in
        let (_, written, run1, (f, filled)) = write_to_disk-puts num_pages t in
        let fd = (k written (open_file "test.file")).value in
        let t2 = log k written (open_file "test.file") in
        let size = pos (page_size * num_pages) in
        let mem = (k t2 (mmap size fd)).value in
        let mapped = log k t2 (mmap size fd) in
        let (_, warm, run2, (dropped, warmed)) = three_warm mem num_pages mapped in
        let (sum, hot, run3, measured) = three_hot mem num_pages warm in
        rw (run1, files.maps t2 size fd, run2, run3, files.unmaps _ mem size)
          (
            tt,
            _,
            refl,
            record {
              f = f;
              fd = fd;
              mem = mem;
              dropped = dropped;
              sum = sum;
              written = written;
              mapped = mapped;
              warm = warm;
              hot = hot;
              filled = filled;
              at = refl;
              warmed = warmed;
              measured = measured;
              finished = refl;
            },
          )
