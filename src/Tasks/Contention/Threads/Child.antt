-- ===== src/Tasks/Contention/Threads/Child.antt =====
-- The program `child` of file_contention.c: it meets `main` at its barrier, and then reads blocks of its file.
use cse.Base.{ℕ, ◌*◌, ◌<◌, ◌≡◌, String, List, [], ◌∷◌, length}
use cse.Base.Int.{ℤ, pos}
use cse.Machine.{
  Call, pread, rand, open_file, pthread_barrier_wait, Kernel, Trace, Run, looping, calls,
}
use cse.FileRead.Shuffle.{RandIsNonneg}
use cse.Tasks.Contention.{block_size, num_blocks_constant}
use cse.Tasks.Contention.Sequence.{asked}
use cse.Tasks.Contention.Threads.History.{Mark, bytes_read}
use cse.Tasks.Contention.Threads.{Move, run, start}
use cse.Tasks.Contention.Threads.Arrivals.{reads_of}
use cse.Tasks.Contention.Threads.Refines.{marks}

-- the reads of whole blocks, in the order of the list, behind the marks `older`
unfoldable pub reads : (blocks : List ℕ) → List Mark → List Mark
reads [] older = older
reads (b ∷ blocks) older = reads blocks (bytes_read block_size (pos (b * block_size)) ∷ older)

-- the calls for these reads, each with the draw of the offset before it, behind the calls `cs`
unfoldable pub random_reads :
    {D : Type 0} → (fd : ℤ) → (blocks : List ℕ) → List (Call D) → List (Call D)
random_reads fd [] cs = cs
random_reads fd (b ∷ blocks) cs =
    random_reads fd blocks (pread fd block_size (pos (b * block_size)) ∷ rand ∷ cs)

abbrev pub InFile : List ℕ → Type 0
InFile [] = Unit {0}
InFile (b ∷ blocks) = (b < num_blocks_constant) × InFile blocks

-- The run goes on for ever, and behind the calls `before` has read `n` blocks from the descriptor `fd`, and
-- made no other calls, when its fuel ends.
pub record ReadsOn {D A : Type 0} (n : ℕ) (fd : ℤ) (before : List (Call D)) (older : List Mark)
    (run : Run D A) : Type 0 where
  pub blocks : List ℕ
  pub last : Trace D
  pub result : run ≡ looping last
  pub count : length blocks ≡ n
  pub inside : InFile blocks
  pub called : calls last ≡ random_reads fd blocks before
  pub made : marks (calls last) ≡ reads blocks older

module _ {D : Type 0} (k : Kernel D) (file_name : ℕ → String) (fuel : ℕ) (garbage : ℤ) (id : ℕ)
    (t : Trace D) where
  -- the descriptor of the file that the program has opened
  abbrev pub opened_file : ℤ
  opened_file = (k (asked k file_name fuel garbage id t) (open_file (file_name id))).value

  -- the calls of the program until it has come through its barrier
  abbrev pub prepared : List (Call D)
  prepared =
      pthread_barrier_wait (pos id)
      ∷ open_file (file_name id)
      ∷ calls (asked k file_name fuel garbage id t)

module _ {D : Type 0} (k : Kernel D) (nonneg : RandIsNonneg k) where
  module _ (file_name : ℕ → String) (garbage : ℤ) (j : ℕ) (t : Trace D) (schedule : List Move) where
    abbrev pub reads_done : ℕ
    reads_done = reads_of j schedule start
