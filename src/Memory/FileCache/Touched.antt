-- ===== src/Memory/FileCache/Touched.antt =====
-- How much of its files file_cache.c touches.
use cse.Base.{ℕ, zero, suc, ◌+◌, ◌/◌, ◌^◌, ◌≡◌, List}
use cse.Double.{Double}
use cse.Machine.{Call, load, Kernel, Trace, calls, ◌>>=◌, tally}
use cse.Memory.PageFault.Printed.{HasFiles}

-- the accesses to a mapping
abbrev pub touches : {D : Type 0} → Call D → ℕ
touches (load mem i) = 1
touches _ = 0

-- the accesses that one measurement makes
abbrev pub accesses : (num_pages : ℕ) → ℕ
accesses num_pages = (num_pages + 4095) / 4096

-- those that a measurement of each of the files of 1, 2, 4, … pages makes, `n` of them
unfoldable pub sum_accesses : (n : ℕ) → ℕ
sum_accesses zero = 0
sum_accesses (suc n) = sum_accesses n + accesses (2 ^ n)

module _ {D : Type 0} ⦃d : Double D⦄ (k : Kernel D) (files : HasFiles k) (cs : List (Call D)) where
  abbrev Touched : ℕ → Trace D → Type 0
  Touched n t = tally touches (calls t) ≡ n + tally touches cs
