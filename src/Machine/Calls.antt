-- ===== src/Machine/Calls.antt =====
-- The calls that the programs make of the operating system and of the C library, and the answers.
use cse.Base.{ℕ, String, List}
use cse.Base.Int.{ℤ}

pub data Clock : Type 0 where
  realtime realtime_coarse monotonic monotonic_raw monotonic_coarse : Clock
  process_cputime_id thread_cputime_id : Clock

-- `struct timespec`
pub record Timespec : Type 0 where
  pub tv_sec : ℤ
  pub tv_nsec : ℤ

-- An argument of `printf`; `error_text n` is `strerror(n)`.
pub data Value (D : Type 0) : Type 0 where
  int : ℤ → Value D
  double : D → Value D
  text : String → Value D
  error_text : ℤ → Value D

-- A call with the arguments that the source varies. The socket address is the address and the port.
pub data Call (D : Type 0) : Type 0 where
  clock_gettime clock_getres : Clock → Call D
  sched_setaffinity : (cpu : ℕ) → Call D
  cpufreq_cpu_exists cpufreq_get_hardware_limits cpufreq_get_freq_kernel : (cpu : ℕ) → Call D
  cpufreq_set_frequency : (cpu : ℕ) → (frequency : ℕ) → Call D
  printf eprintf : (format : String) → (args : List (Value D)) → Call D
  perror : String → Call D
  errno time rand sys_gettid getpid : Call D
  srand : ℤ → Call D
  socket : Call D
  connect : (sock : ℤ) → (address : String) → (port : ℕ) → Call D
  send recv : (sock : ℤ) → (size : ℕ) → Call D
  usleep : ℕ → Call D
  malloc : (size : ℕ) → Call D
  memset : (pointer : ℤ) → (byte : ℤ) → (size : ℕ) → Call D
  posix_memalign : (alignment : ℕ) → (size : ℕ) → Call D
  free : (pointer : ℤ) → Call D
  system : (command : String) → (args : List (Value D)) → Call D
  open_file : (name : String) → Call D
  fopen : (name : String) → (mode : String) → Call D
  fputc : (byte : ℕ) → (file : ℤ) → Call D
  fclose : (file : ℤ) → Call D
  mmap : (size : ℤ) → (fd : ℤ) → Call D
  munmap : (pointer : ℤ) → (size : ℤ) → Call D
  load : (pointer : ℤ) → (index : ℕ) → Call D
  pread : (fd : ℤ) → (size : ℕ) → (offset : ℤ) → Call D
  close : (fd : ℤ) → Call D
  unlink : (name : String) → Call D
  pthread_create : (index : ℕ) → Call D
  fork vfork : Call D
  sched_yield : Call D
  shmget : Call D
  shmat : (id : ℤ) → Call D
  load_word : (pointer : ℤ) → (index : ℕ) → Call D
  store_word : (pointer : ℤ) → (index : ℕ) → (word : ℕ) → Call D
  store : (pointer : ℤ) → (word : ℕ) → Call D
  futex_wait : (pointer : ℤ) → (expected : ℕ) → Call D
  futex_wake : (pointer : ℤ) → (count : ℕ) → Call D
  wait_child : Call D
  waitpid : (pid : ℤ) → Call D
  pthread_barrier_init : (count : ℕ) → Call D
  pthread_barrier_wait : (barrier : ℤ) → Call D
  sysconf_clk_tck : Call D

-- The result of a call; `time` is what `clock_gettime` and `clock_getres` store, `cpu_min` and
-- `cpu_max` what `cpufreq_get_hardware_limits` stores, and `frequency` the result of
-- `cpufreq_get_freq_kernel`.
pub record Reply : Type 0 where
  pub value : ℤ
  pub time : Timespec
  pub cpu_min : ℕ
  pub cpu_max : ℕ
  pub frequency : ℕ

pub record Event (D : Type 0) : Type 0 where
  pub call : Call D
  pub reply : Reply

abbrev pub Trace : Type 0 → Type 0
Trace D = List (Event D)

abbrev pub Kernel : Type 0 → Type 0
Kernel D = Trace D → Call D → Reply
