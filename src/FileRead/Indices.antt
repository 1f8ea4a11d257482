-- ===== src/FileRead/Indices.antt =====
-- The first loop of `measure_fc_access` numbers the blocks, whatever the array held before.
use cse.Base.{ℕ, ◌≡◌, ◌∙◌, ap, replicate, length-replicate}
use cse.Base.Counting.{upto}
use cse.Machine.{Kernel, Trace, done, fill-map, map-id}
use cse.FileRead.{fill_indices}

pub fill_indices-upto :
    {D : Type 0} (k : Kernel D) (n garbage : ℕ) (t : Trace D)
    → fill_indices n (replicate n garbage) k t ≡ done (upto n 0) t
unfolding fill_indices
fill_indices-upto k n garbage t =
    fill-map k t 0 (λ i. i) n (replicate n garbage) (length-replicate n garbage)
    ∙ ap (λ l. done l t) (map-id (upto n 0))
