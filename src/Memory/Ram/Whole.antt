-- ===== src/Memory/Ram/Whole.antt =====
-- ram_access_time.c as a whole: its lines, and its accesses.
use cse.Base.{ℕ, ◌+◌, ◌≡◌, refl, false}
use cse.Base.Int.{pos, is_zero}
use cse.Double.{Double}
use cse.Machine.{malloc, Kernel, Trace, done, exited, calls, Ends-both, tally}
use cse.Common.Setup.{init_test}
use cse.Memory.Ram.{size_len, start_array_size_power, main}
use cse.Memory.Ram.Strides.{accesses, strays}
use cse.Memory.Ram.Sizes.{test_4bytes_to_500mbytes-Ends}
use cse.Memory.Ram.Printed.{lines, sizes_and_powers, test_4bytes_to_500mbytes-powers}

-- If `init_test` succeeds and `malloc` finds every block, ram_access_time.c exits with status 0. Its lines give
-- in their first two columns the sizes 2 ^ 2 to 2 ^ 29, in this order, and beside each size the power from
-- which the program has computed it; and it has made 2800000 accesses, each to an `int` that lies within the
-- block that `malloc` has returned last before it, and that has not been freed.
pub main-Sizes :
    {D : Type 0} ⦃d : Double D⦄ (k : Kernel D) (garbage : ℕ) (t t0 : Trace D)
    → ((s : Trace D) (size : ℕ) → is_zero (k s (malloc size)).value ≡ false)
    → init_test k t ≡ done (pos 0) t0
    → (t' : Trace D) × (main garbage k t ≡ exited (pos 0) t')
      × (lines (calls t') ≡ sizes_and_powers size_len start_array_size_power (lines (calls t0)))
      × (tally accesses (calls t') ≡ 2800000 + tally accesses (calls t0))
      × (strays t' ≡ strays t0)
unfolding main
main-Sizes k garbage t t0 found started =
    let (_, t', run, (printed, accessed)) =
      Ends-both (test_4bytes_to_500mbytes-powers k garbage t0 found)
        (test_4bytes_to_500mbytes-Ends k t0 garbage found) in
    (t', rw (started, run) refl, printed, accessed.0, accessed.1)
