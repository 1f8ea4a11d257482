-- ===== src/Machine/Readings.antt =====
-- The clock readings of a trace, newest first.
use cse.Base.{List, [], ◌∷◌}
use cse.Machine.Calls.{Call, clock_gettime, Timespec, Trace}

-- the answer to one call, in front of the readings before it, if the call reads a clock
abbrev pub reading : {D : Type 0} → Call D → Timespec → List Timespec → List Timespec
reading (clock_gettime clock) time older = time ∷ older
reading _ time older = older

unfoldable pub readings : {D : Type 0} → Trace D → List Timespec
readings [] = []
readings (e ∷ t) = reading e.call e.reply.time (readings t)
