-- ===== src/Memory/Ram/Strides.antt =====
-- The accesses of ram_access_time.c: where they go, and the sizes of the blocks.
use cse.Base.{
  Bool, Option, none, some, ◌==◌, ℕ, zero, suc, ◌+◌, ◌*◌, ◌/◌, ◌%◌, ◌≤◌, ◌<◌, ◌≡◌, refl, true,
  false, [], ◌∷◌, leb, if◌then◌else◌, arith,
}
use cse.Base.Int.{ℤ, pos, negsuc, is_zero, to_unsigned}
use cse.Double.{Double}
use cse.Machine.{
  Call, rand, load, malloc, memset, free, clock_gettime, monotonic_raw, Kernel, Trace, exited,
  exit_failure, log, calls, Ends, Ends-and_then, Ends-for_range, tally,
}
use cse.Memory.Ram.{test_count, int_max, sizeof_int, access, test_size}

abbrev pub accesses : {D : Type 0} → Call D → ℕ
accesses (load pointer index) = 1
accesses _ = 0

unfoldable pub same_pointer : ℤ → ℤ → Bool
same_pointer (pos a) (pos b) = a == b
same_pointer (negsuc a) (negsuc b) = a == b
same_pointer _ _ = false

-- A block in use is what `malloc` has returned, with its size; `free` ends its use.
abbrev pub block_after : {D : Type 0} → Call D → ℤ → Option (ℤ × ℕ) → Option (ℤ × ℕ)
block_after (malloc size) pointer block = some (pointer, size)
block_after (free pointer) _ block = none
block_after _ _ block = block

-- the block that was allocated last, unless there has been a `free` since
unfoldable pub block_in_use : {D : Type 0} → Trace D → Option (ℤ × ℕ)
block_in_use [] = none
block_in_use (e ∷ t) = block_after e.call e.reply.value (block_in_use t)

-- whether a load is one of an `int` that does not lie within the block in use
abbrev pub stray : {D : Type 0} → Call D → Option (ℤ × ℕ) → ℕ
stray (load pointer index) (some (start, size)) =
    if same_pointer pointer start
    then (if leb (sizeof_int * index + sizeof_int) size then 0 else 1)
    else 1
stray (load pointer index) none = 1
stray _ _ = 0

unfoldable pub strays : {D : Type 0} → Trace D → ℕ
strays [] = 0
strays (e ∷ t) = stray e.call (block_in_use t) + strays t

same_pointer_refl : (a : ℤ) → same_pointer a a ≡ true
unfolding same_pointer
same_pointer_refl (pos a) = ground arith
same_pointer_refl (negsuc a) = ground arith

stride-inside :
    (r size q : ℕ) → size / sizeof_int ≡ q → 0 < q → sizeof_int * (r % q) + sizeof_int ≤ size
stride-inside r size zero e h = absurd (omega arith)
stride-inside r size (suc q) e h = omega arith

module _ {D : Type 0} (k : Kernel D) (pointer : ℤ) (size : ℕ) (before : Trace D) where
  -- `n` accesses more than in `before`, and none of them outside the block, which is in use
  pub record Inside (n : ℕ) (t : Trace D) : Type 0 where
    pub access_count : tally accesses (calls t) ≡ n + tally accesses (calls before)
    pub stray_count : strays t ≡ strays before
    pub used : block_in_use t ≡ some (pointer, size)

  access-Inside :
      4 ≤ size
      → (n : ℕ) (t : Trace D) → Inside n t
      → Ends (λ _ t'. Inside (n + 1) t') (access pointer size k t)
  unfolding access tally calls strays block_in_use
  access-Inside some_ints n t inside =
      let r = to_unsigned (k t rand).value in
      let within : leb (sizeof_int * (r % (size / sizeof_int)) + sizeof_int) size ≡ true =
        ground (arith, stride-inside r size (size / sizeof_int) refl (omega arith)) in
      (
        tt,
        _,
        refl,
        record {
          access_count = omega (arith, inside.access_count);
          stray_count =
              rw (inside.used, same_pointer_refl pointer, within)
                (omega (arith, inside.stray_count));
          used = inside.used;
        },
      )

module _ {D : Type 0} ⦃d : Double D⦄ (k : Kernel D) (size : ℕ) (t : Trace D) where
  -- For a block of at least four bytes, if `malloc` finds it, `test_size` ends: it has made 100000
  -- accesses, every one to an `int` that lies inside the block, before the block is freed.
  pub test_size-strays :
      4 ≤ size
      → is_zero (k t (malloc size)).value ≡ false
      → Ends
          (λ _ t'.
            (tally accesses (calls t') ≡ test_count + tally accesses (calls t))
            × (strays t' ≡ strays t))
          (test_size size k t)
  unfolding test_size calls tally strays block_in_use
  test_size-strays some_ints found =
      let pointer = (k t (malloc size)).value in
      let s =
        log k (log k (log k t (malloc size)) (memset pointer int_max size))
          (clock_gettime monotonic_raw) in
      rw found (
        Ends-and_then
          (Ends-for_range k (λ i _ t'. Inside k pointer size t i t') (λ _ _. access pointer size)
            test_count (λ i _ t' _ inside. access-Inside k pointer size t some_ints i t' inside)
            test_count 0 tt s (omega arith)
            (record { access_count = omega arith; stray_count = omega arith; used = refl }))
          λ _ t' inside.
            (tt, _, refl, (omega (arith, inside.access_count), omega (arith, inside.stray_count))))

  -- If `malloc` finds no memory, the program exits with status 1 and has made no access.
  pub test_size-refused :
      is_zero (k t (malloc size)).value ≡ true
      → (t' : Trace D) × (test_size size k t ≡ exited exit_failure t')
        × (tally accesses (calls t') ≡ tally accesses (calls t))
  unfolding test_size calls tally
  test_size-refused none_found = rw none_found (_, refl, omega arith)
