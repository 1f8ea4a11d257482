-- ===== src/Overhead/Procedure.antt =====
-- rpi3_bench/procedure_call.c: the time of a call of a function, by the number of its arguments.
pub mod Compare
pub mod Rows
use cse.Base.{
  String, ℕ, ◌/◌, Option, none, some, List, [], ◌∷◌, set, replicate, get_elem?, if◌then◌else◌,
}
use cse.Base.Int.{ℤ, pos, negsuc}
use cse.Double.{Double, ◌⊖◌, ◌⊘◌, of_int, lt}
use cse.Machine.{
  double, sched_setaffinity, clock_gettime, monotonic_raw, M, pure, and_then, ◌>>=◌, ◌>>◌, ask,
  call, print, read, repeat, for_range, write,
}
use cse.Common.Time.{timespec_diff_to_nsecs}
use cse.Common.Stats.{Qsort}

abbrev pub iterations : ℕ
iterations = 100000

abbrev pub measurements : ℕ
measurements = 300

unfoldable pub double_compare : {D : Type 0} ⦃d : Double D⦄ → D → D → ℤ
double_compare d1 d2 = if lt d1 d2 then negsuc 0 else if lt d2 d1 then pos 1 else pos 0

module _ {D : Type 0} where
  unfoldable pub proc0 : M D ℤ
  proc0 = pure (pos 0)

  unfoldable pub proc1 : (x1 : ℤ) → M D ℤ
  proc1 x1 = pure (pos 0)

  unfoldable pub proc2 : (x1 x2 : ℤ) → M D ℤ
  proc2 x1 x2 = pure (pos 0)

  unfoldable pub proc3 : (x1 x2 x3 : ℤ) → M D ℤ
  proc3 x1 x2 x3 = pure (pos 0)

  unfoldable pub proc4 : (x1 x2 x3 x4 : ℤ) → M D ℤ
  proc4 x1 x2 x3 x4 = pure (pos 0)

  unfoldable pub proc5 : (x1 x2 x3 x4 x5 : ℤ) → M D ℤ
  proc5 x1 x2 x3 x4 x5 = pure (pos 0)

  unfoldable pub proc6 : (x1 x2 x3 x4 x5 x6 : ℤ) → M D ℤ
  proc6 x1 x2 x3 x4 x5 x6 = pure (pos 0)

  unfoldable pub proc7 : (x1 x2 x3 x4 x5 x6 x7 : ℤ) → M D ℤ
  proc7 x1 x2 x3 x4 x5 x6 x7 = pure (pos 0)

  -- the macros that call them in the loop
  unfoldable pub cproc0 : (i : ℕ) → M D ℤ
  cproc0 i = proc0

  unfoldable pub cproc1 : (i : ℕ) → M D ℤ
  cproc1 i = proc1 (pos i)

  unfoldable pub cproc2 : (i : ℕ) → M D ℤ
  cproc2 i = proc2 (pos i) (pos i)

  unfoldable pub cproc3 : (i : ℕ) → M D ℤ
  cproc3 i = proc3 (pos i) (pos i) (pos i)

  unfoldable pub cproc4 : (i : ℕ) → M D ℤ
  cproc4 i = proc4 (pos i) (pos i) (pos i) (pos i)

  unfoldable pub cproc5 : (i : ℕ) → M D ℤ
  cproc5 i = proc5 (pos i) (pos i) (pos i) (pos i) (pos i)

  unfoldable pub cproc6 : (i : ℕ) → M D ℤ
  cproc6 i = proc6 (pos i) (pos i) (pos i) (pos i) (pos i) (pos i)

  unfoldable pub cproc7 : (i : ℕ) → M D ℤ
  cproc7 i = proc7 (pos i) (pos i) (pos i) (pos i) (pos i) (pos i) (pos i)

  -- for (int i = 0; i < ITERATIONS; ++i) { cproc(i); }
  unfoldable pub call_loop : (n first : ℕ) → (cproc : ℕ → M D ℤ) → M D (Unit {0})
  call_loop n first cproc = for_range n first (λ i s. do _ ← cproc i; pure s) tt

module _ {D : Type 0} ⦃d : Double D⦄ where
  -- the time that a loop takes, by the number of its rounds
  unfoldable pub measure_once : (body : M D (Unit {0})) → M D D
  measure_once body = do
    start ← ask (clock_gettime monotonic_raw)
    body
    end ← ask (clock_gettime monotonic_raw)
    pure (timespec_diff_to_nsecs start.time end.time ⊘ of_int (pos iterations))

  -- The array after the sort, and the element that the macro yields. `qsort` is the C library's.
  unfoldable pub get_avg_measure :
      (cproc : ℕ → M D ℤ) → Qsort D → (measures : List D) → M D (List D × D)
  get_avg_measure cproc qsort measures = do
    filled ←
        for_range measurements 0
          (λ m measured. do
            time ← measure_once (call_loop iterations 0 cproc)
            write measured m time)
          measures
    let sorted = qsort double_compare filled
    middle ← read sorted (measurements / 2)
    pure (sorted, middle)

  -- one line of the table
  unfoldable pub print_row :
      Qsort D
      → (baseline : D) → (format : String) → (cproc : ℕ → M D ℤ) → (measures : List D)
      → M D (List D)
  print_row qsort baseline format cproc measures = do
    (sorted, time) ← get_avg_measure cproc qsort measures
    print format (double (time ⊖ baseline) ∷ [])
    pure sorted

  -- `garbage` is what the array holds at first.
  unfoldable pub main : Qsort D → (garbage : D) → M D ℤ
  main qsort garbage = do
    call (sched_setaffinity 3)
    baseline ← measure_once (repeat iterations (pure tt))
    print "baseline loop: %f\n" (double baseline ∷ [])
    m0 ← print_row qsort baseline "0 args: %f\n" cproc0 (replicate measurements garbage)
    m1 ← print_row qsort baseline "1 args: %f\n" cproc1 m0
    m2 ← print_row qsort baseline "2 args: %f\n" cproc2 m1
    m3 ← print_row qsort baseline "3 args: %f\n" cproc3 m2
    m4 ← print_row qsort baseline "4 args: %f\n" cproc4 m3
    m5 ← print_row qsort baseline "5 args: %f\n" cproc5 m4
    m6 ← print_row qsort baseline "6 args: %f\n" cproc6 m5
    m7 ← print_row qsort baseline "7 args: %f\n" cproc7 m6
    pure (pos 0)
