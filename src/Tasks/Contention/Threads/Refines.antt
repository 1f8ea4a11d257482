-- ===== src/Tasks/Contention/Threads/Refines.antt =====
-- The program `main` of file_contention.c does what the machine's `main` does.
use cse.Base.{List, [], ◌∷◌}
use cse.Base.Int.{pos}
use cse.Double.{Double}
use cse.Machine.{
  Call, pread, pthread_create, pthread_barrier_init, pthread_barrier_wait, open_file, printf,
  system, text, int,
}
use cse.Tasks.Contention.Round.{Round}
use cse.Tasks.Contention.Threads.History.{
  Mark, barrier_made, thread_made, barrier_reached, bytes_read,
}

-- the marks of a call: what it does to a thread or its barrier, or its read
abbrev pub mark : {D : Type 0} → Call D → List Mark → List Mark
mark (pthread_barrier_init count) older = barrier_made ∷ older
mark (pthread_create i) older = thread_made i ∷ older
mark (pthread_barrier_wait (pos i)) older = barrier_reached i ∷ older
mark (pread fd size offset) older = bytes_read size offset ∷ older
mark _ older = older

unfoldable pub marks : {D : Type 0} → List (Call D) → List Mark
marks [] = []
marks (c ∷ cs) = mark c (marks cs)

-- the calls of `main` before its rounds
abbrev pub opening : {D : Type 0} → List (Call D) → List (Call D)
opening cs =
    open_file "test.file"
    ∷ system "dd if=/dev/urandom of=%s count=%d bs=4096 status=none"
        (text "test.file" ∷ int (pos 8192) ∷ [])
    ∷ printf "Writing test file...\n" []
    ∷ cs
