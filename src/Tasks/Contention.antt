-- ===== src/Tasks/Contention.antt =====
-- rpi3_bench/file_contention.c: the time to read a file while other threads read files.
pub mod Sequence
pub mod Round
pub mod Threads
use cse.Base.{ℕ, zero, suc, ◌+◌, ◌*◌, ◌/◌, ◌%◌, ◌^◌, String, not, [], ◌∷◌, if◌then◌else◌}
use cse.Base.Int.{ℤ, pos, negsuc, is_zero, is_minus_one, wrap_int, ◌-ℤ◌}
use cse.Double.{Double, ◌⊖◌, ◌⊗◌, ◌⊘◌, of_int}
use cse.Machine.{
  text, int, double, error_text, clock_gettime, monotonic_raw, system, posix_memalign, pread, free,
  open_file, close, unlink, usleep, rand, pthread_create, pthread_barrier_init,
  pthread_barrier_wait, M, looping, pure, and_then, ◌>>=◌, ◌>>◌, ask, call, value_of, print, exit,
  assert, for_range,
}
use cse.Common.{get_time_overhead, for_loop_overhead}
use cse.Common.Setup.{init_test}
use cse.Common.Time.{timespec_diff_to_nsecs}

abbrev pub block_size : ℕ
block_size = 4096

abbrev pub num_threads : ℕ
num_threads = 10

abbrev pub num_blocks_constant : ℕ
num_blocks_constant = 2 ^ 13

-- (rand() % NUM_BLOCKS) * BLOCK_SIZE; the remainder takes the sign of the dividend
unfoldable pub random_offset : (random : ℤ) → ℤ
random_offset (pos r) = pos (r % num_blocks_constant * block_size)
random_offset (negsuc r) = pos 0 -ℤ pos (suc r % num_blocks_constant * block_size)

module _ {D : Type 0} where
  -- for (int i = first; i < first + n; ++i) pread(fd, buf, BLOCK_SIZE, i*BLOCK_SIZE);
  unfoldable pub read_sequence : (fd : ℤ) → (n first : ℕ) → M D (Unit {0})
  read_sequence fd zero first = pure tt
  read_sequence fd (suc n) first = do
    call (pread fd block_size (wrap_int (pos (first * block_size))))
    read_sequence fd n (suc first)

  unfoldable pub write_to_disk : (filename : String) → (num_blocks : ℕ) → M D (Unit {0})
  write_to_disk filename num_blocks = do
    status ← value_of (
        system "dd if=/dev/urandom of=%s count=%d bs=4096 status=none"
          (text filename ∷ int (pos num_blocks) ∷ []))
    assert (is_zero status)

  -- while (1) { pread(...); }, with fuel
  unfoldable pub read_forever : (fuel : ℕ) → (fd : ℤ) → M D (Unit {0})
  read_forever zero fd = λ k t. looping t
  read_forever (suc fuel) fd = do
    random ← value_of rand
    call (pread fd block_size (random_offset random))
    read_forever fuel fd

  -- `buf` keeps what it holds at first, `garbage`, where posix_memalign finds no memory (the answer 0).
  -- `file_name` is `snprintf(filename, 64, "test%d.file", id)`; the barrier is named by the thread.
  unfoldable pub child :
      (file_name : ℕ → String) → (fuel : ℕ) → (garbage : ℤ) → (id : ℕ) → M D (Unit {0})
  child file_name fuel garbage id = do
    write_to_disk (file_name id) num_blocks_constant
    stored ← value_of (posix_memalign block_size block_size)
    let buf = if is_zero stored then garbage else stored
    if is_zero buf then (do print "Error allocating aligned mem.\n\n" []; exit (pos 1)) else do
      fd ← value_of (open_file (file_name id))
      assert (not (is_minus_one fd))
      call (pthread_barrier_wait (pos id))
      read_forever fuel fd

module _ {D : Type 0} ⦃d : Double D⦄ where
  -- `buf` is NULL at first.
  unfoldable pub measure_fc_access : (fd : ℤ) → (num_blocks : ℕ) → M D D
  measure_fc_access fd num_blocks = do
    status ← value_of (system "sync; echo 1 >|/proc/sys/vm/drop_caches" [])
    assert (is_zero status)
    buf ← value_of (posix_memalign block_size block_size)
    if is_zero buf then (do print "Error allocating aligned mem.\n\n" []; exit (pos 1)) else do
      start ← ask (clock_gettime monotonic_raw)
      read_sequence fd num_blocks 0
      end ← ask (clock_gettime monotonic_raw)
      call (free buf)
      pure (
          timespec_diff_to_nsecs start.time end.time
          ⊖ of_int (pos num_blocks) ⊗ for_loop_overhead
          ⊖ of_int (pos get_time_overhead))

  unfoldable pub measure_read_time : (fd : ℤ) → (threads : ℕ) → M D (Unit {0})
  measure_read_time fd threads = do
    read_time ← measure_fc_access fd num_blocks_constant
    print "%d threads, %d MB: %.2f us/block\n" (
        int (pos threads)
        ∷ int (pos (num_blocks_constant * block_size / 1024 / 1024))
        ∷ double (read_time ⊘ of_int (pos 1000) ⊘ of_int (pos num_blocks_constant))
        ∷ [])

  -- one round of the loop of `main`
  unfoldable pub start_and_measure : (fd : ℤ) → (i : ℕ) → M D (Unit {0})
  start_and_measure fd i = do
    made ← value_of (pthread_barrier_init 2)
    assert (is_zero made)
    print "Starting thread %d\n" (int (pos i) ∷ [])
    err ← value_of (pthread_create i)
    if not (is_zero err)
        then (do print "error: %s" (error_text err ∷ []); exit (pos 1))
        else do call (pthread_barrier_wait (pos i)); call (usleep 500); measure_read_time fd (i + 1)

  unfoldable pub main : M D ℤ
  main = do
    status ← init_test
    assert (is_zero status)
    print "Writing test file...\n" []
    write_to_disk "test.file" num_blocks_constant
    fd ← value_of (open_file "test.file")
    assert (not (is_minus_one fd))
    for_range num_threads 0 (λ i _. start_and_measure fd i) tt
    call (close fd)
    call (unlink "test.file")
    pure (pos 0)
