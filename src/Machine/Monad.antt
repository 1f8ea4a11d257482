-- ===== src/Machine/Monad.antt =====
-- Runs, and the monad in which the programs are written.
use cse.Base.{ℕ, Bool, true, false, List, ◌∷◌, String, ℕ, Option, none, some, get_elem?, set?}
use cse.Base.Int.{ℤ, pos}
use cse.Machine.Calls.{Value, Call, printf, Reply, Event, Trace, Kernel}

-- `exited` is `exit(code)`, `aborted` a failed `assert`, `fault` an access outside an object, and
-- `looping` a loop that has used up its fuel.
pub data Run (D : Type 0) (A : Type 0) : Type 0 where
  done : A → Trace D → Run D A
  exited : (code : ℤ) → Trace D → Run D A
  aborted fault looping : Trace D → Run D A

abbrev pub M : Type 0 → Type 0 → Type 0
M D A = Kernel D → Trace D → Run D A

abbrev pub pure : {D A : Type 0} → A → M D A
pure a k t = done a t

abbrev pub and_then : {D A B : Type 0} → Run D A → (A → Trace D → Run D B) → Run D B
and_then (done a t) f = f a t
and_then (exited c t) f = exited c t
and_then (aborted t) f = aborted t
and_then (fault t) f = fault t
and_then (looping t) f = looping t

infixl 5 ◌>>=◌ ◌>>◌
abbrev pub ◌>>=◌ : {D A B : Type 0} → M D A → (A → M D B) → M D B
◌>>=◌ m f k t = and_then (m k t) (λ a t'. f a k t')

abbrev pub ◌>>◌ : {D B : Type 0} → M D (Unit {0}) → M D B → M D B
m >> n = m >>= λ _. n

-- a call with the kernel's answer to it, and the trace that ends in them
abbrev pub event : {D : Type 0} → Kernel D → Trace D → Call D → Event D
event k t c = record { call = c; reply = k t c }

abbrev pub log : {D : Type 0} → Kernel D → Trace D → Call D → Trace D
log k t c = event k t c ∷ t

abbrev pub ask : {D : Type 0} → Call D → M D Reply
ask c k t = done (k t c) (log k t c)

-- a call whose result the source ignores
abbrev pub call : {D : Type 0} → Call D → M D (Unit {0})
call c k t = done tt (log k t c)

abbrev pub value_of : {D : Type 0} → Call D → M D ℤ
value_of c = do r ← ask c; pure r.value

abbrev pub print : {D : Type 0} → String → List (Value D) → M D (Unit {0})
print format args = call (printf format args)

abbrev pub exit : {D A : Type 0} → ℤ → M D A
exit code k t = exited code t

abbrev pub assert : {D : Type 0} → Bool → M D (Unit {0})
assert true k t = done tt t
assert false k t = aborted t

-- an access to an array of the program
abbrev pub of_option : {D A : Type 0} → Option A → M D A
of_option none k t = fault t
of_option (some a) k t = done a t

abbrev pub read : {D A : Type 0} → List A → ℕ → M D A
read xs i = of_option (get_elem? xs i)

abbrev pub write : {D A : Type 0} → List A → ℕ → A → M D (List A)
write xs i v = of_option (set? xs i v)

abbrev pub exit_failure : ℤ
exit_failure = pos 1
