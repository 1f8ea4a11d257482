-- ===== src/FileRead.antt =====
-- rpi3_bench/file_read.c: reads every block of a file once, in order or in a shuffled order.
pub mod Indices
pub mod Shuffle
pub mod Blocks
pub mod Sizes
pub mod Whole
use cse.Base.{
  ℕ, zero, suc, ◌+◌, ◌-◌, ◌*◌, ◌/◌, ◌%◌, ◌^◌, String, Bool, true, false, not, Option, none, some,
  List, [], ◌∷◌, set, length, ◌==◌, if◌then◌else◌, replicate, get_elem?,
}
use cse.Base.Int.{ℤ, pos, negsuc, is_zero, is_minus_one, wrap_int}
use cse.Double.{Double, ◌⊖◌, ◌⊗◌, ◌⊘◌, of_int}
use cse.Machine.{
  text, int, double, clock_gettime, monotonic_raw, rand, posix_memalign, pread, free, system,
  open_file, close, unlink, printf, M, pure, and_then, ◌>>=◌, ◌>>◌, ask, call, value_of, print,
  exit, assert, read, of_option, for_range, fill, write,
}
use cse.Common.{get_time_overhead, for_loop_overhead}
use cse.Common.Setup.{init_test}
use cse.Common.Time.{timespec_diff_to_nsecs}

abbrev pub block_size : ℕ
block_size = 4096

abbrev pub max_fs_bits : ℕ
max_fs_bits = 31

abbrev pub min_fs_bits : ℕ
min_fs_bits = max_fs_bits - 10

-- `rand() % i` as an index; C's remainder takes the sign of the dividend
abbrev pub remainder : ℤ → ℕ → Option ℕ
remainder (pos r) i = some (r % i)
remainder (negsuc r) i = if suc r % i == 0 then some 0 else none

module _ {D : Type 0} where
  -- for (int i = 0; i < num_blocks; ++i) indices[i] = i;
  unfoldable pub fill_indices : (num_blocks : ℕ) → List ℕ → M D (List ℕ)
  fill_indices num_blocks indices = fill 0 (λ i. i) num_blocks 0 indices

  -- for (int i = ...; i > 0; --i) { int j = rand() % i; swap indices[i] and indices[j] }
  unfoldable pub shuffle : ℕ → List ℕ → M D (List ℕ)
  shuffle zero indices = pure indices
  shuffle (suc i) indices = do
    random ← value_of rand
    j ← of_option (remainder random (suc i))
    temp ← read indices (suc i)
    other ← read indices j
    one ← write indices (suc i) other
    both ← write one j temp
    shuffle i both

  -- for (int i = first; i < first + n; ++i) pread(fd, buf, BLOCK_SIZE, indices[i]*BLOCK_SIZE);
  unfoldable pub read_blocks : ℤ → List ℕ → (n first : ℕ) → M D (Unit {0})
  read_blocks fd indices zero first = pure tt
  read_blocks fd indices (suc n) first = do
    index ← read indices first
    call (pread fd block_size (wrap_int (pos (index * block_size))))
    read_blocks fd indices n (suc first)

module _ {D : Type 0} ⦃d : Double D⦄ where
  -- `measure_fc_access` from the allocation of the buffer on
  unfoldable pub timed_reads : (fd : ℤ) → (indices : List ℕ) → (num_blocks : ℕ) → M D D
  timed_reads fd indices num_blocks = do
    buf ← value_of (posix_memalign block_size block_size)
    if is_zero buf then (do print "Error allocating aligned mem.\n\n" []; exit (pos 1)) else do
      start ← ask (clock_gettime monotonic_raw)
      read_blocks fd indices num_blocks 0
      end ← ask (clock_gettime monotonic_raw)
      call (free buf)
      pure (
          timespec_diff_to_nsecs start.time end.time
          ⊖ of_int (pos num_blocks) ⊗ for_loop_overhead
          ⊖ of_int (pos get_time_overhead))

  -- `garbage` is what the array holds before it is filled.
  unfoldable pub measure_fc_access :
      (garbage : ℕ) → (fd : ℤ) → (num_blocks : ℕ) → (is_random_access : Bool) → M D D
  measure_fc_access garbage fd num_blocks is_random_access = do
    filled ← fill_indices num_blocks (replicate num_blocks garbage)
    indices ← (if is_random_access then shuffle (num_blocks - 1) filled else pure filled)
    timed_reads fd indices num_blocks

  -- The command names test.file, whatever `filename` is.
  unfoldable pub write_to_disk : (filename : String) → (num_blocks : ℕ) → M D (Unit {0})
  write_to_disk filename num_blocks = do
    status ← value_of (
        system "dd if=/dev/urandom of=test.file count=%d bs=4096 status=none"
          (int (pos num_blocks) ∷ []))
    assert (is_zero status)

  unfoldable pub print_for :
      (garbage : ℕ)
      → (num_bytes : ℕ) → (is_random_access : Bool) → (filename : String) → M D (Unit {0})
  print_for garbage num_bytes is_random_access filename = do
    let num_blocks = num_bytes / block_size
    write_to_disk filename num_blocks
    status ← value_of (system "sync; echo 1 >|/proc/sys/vm/drop_caches" [])
    assert (is_zero status)
    fd ← value_of (open_file filename)
    assert (not (is_minus_one fd))
    read_time ← measure_fc_access garbage fd num_blocks is_random_access
    print "%d MB: %.2f us/block\n" (
        int (pos (num_blocks * block_size / 1024 / 1024))
        ∷ double (read_time ⊘ of_int (pos 1000) ⊘ of_int (pos num_blocks))
        ∷ [])
    call (close fd)
    call (unlink filename)

  -- `argv` without the program's name; `argc` is one more than its length
  unfoldable pub main : (garbage : ℕ) → (argv : List String) → M D ℤ
  main garbage argv = do
    status ← init_test
    assert (is_zero status)
    assert (length argv == 1)
    file ← read argv 0
    print "\nSequential on file %s:\n" (text file ∷ [])
    for_range (max_fs_bits - min_fs_bits) min_fs_bits
        (λ fs_bits _. print_for garbage (2 ^ fs_bits) false file) tt
    pure (pos 0)
