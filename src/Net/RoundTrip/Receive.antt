-- ===== src/Net/RoundTrip/Receive.antt =====
-- The receive loop: it ends with enough bytes if every `recv` delivers some, it takes failures for
-- progress, and it does not end once the peer has closed the connection.
use cse.Base.{
  [], ◌∷◌, ℕ, zero, suc, ◌+◌, ◌*◌, ◌^◌, ◌≤◌, ◌<◌, ◌≡◌, refl, ◌∙◌, ap, true, false, ltb, arith,
}
use native.Mathlib.Decide.{dec_lt}
use cse.Base.Int.{ℤ, pos, negsuc, to_unsigned, wrap_int, ◌+ℤ◌}
use cse.Machine.{Call, recv, Kernel, Trace, Run, done, looping, log, calls, copies, copies-cons}
use cse.Net.RoundTrip.{receive_loop}

minus_one : wrap_int (pos 0 +ℤ negsuc 0) ≡ negsuc 0
unfolding wrap_int ◌+ℤ◌
minus_one = refl

add_pos : (a b : ℕ) → a + b < 2 ^ 31 → wrap_int (pos a +ℤ pos b) ≡ pos (a + b)
unfolding wrap_int ◌+ℤ◌
add_pos a b h = ground arith

sub_one : (a : ℕ) → suc a < 2 ^ 31 → wrap_int (pos (suc a) +ℤ negsuc 0) ≡ pos a
unfolding wrap_int ◌+ℤ◌
sub_one a h = ground arith

-- what the calls of `recv` in a trace have delivered, in bytes; a failure delivers none
abbrev delivered : {D : Type 0} → Call D → ℤ → ℕ
delivered (recv sock size) (pos bytes) = bytes
delivered _ _ = 0

unfoldable pub received : {D : Type 0} → Trace D → ℕ
received [] = 0
received (e ∷ t) = delivered e.call e.reply.value + received t

module _ {D : Type 0} (k : Kernel D) (sock : ℤ) (size : ℕ) where
  -- every call of `recv` returns between 1 and `size` bytes
  abbrev pub Delivers : Type 0
  Delivers = (t : Trace D) → (b : ℕ) × ((k t (recv sock size)).value ≡ pos b) × (0 < b) × (b ≤ size)

  abbrev pub Fails : Type 0
  Fails = (t : Trace D) → (k t (recv sock size)).value ≡ negsuc 0

  -- the peer has closed the connection
  abbrev pub IsClosed : Type 0
  IsClosed = (t : Trace D) → (k t (recv sock size)).value ≡ pos 0

  pub record Received (total : ℕ) (t : Trace D) (run : Run D ℤ) : Type 0 where
    pub count : ℕ
    pub rounds : ℕ
    pub final : Trace D
    pub result : run ≡ done (pos count) final
    pub enough : size ≤ count
    pub bounded : count < 2 * size
    pub few : rounds + total ≤ count
    pub called : calls final ≡ copies rounds (recv sock size) (calls t)
    pub bytes : count + received t ≡ total + received final

  -- one round: below `size` the loop calls `recv` and adds its result
  receive_step :
      (fuel total : ℕ) (t : Trace D) (r next : ℤ)
      → size < 2 ^ 30
      → total < size
      → (k t (recv sock size)).value ≡ r
      → wrap_int (pos total +ℤ r) ≡ next
      → receive_loop (suc fuel) sock size (pos total) k t
        ≡ receive_loop fuel sock size next k (log k t (recv sock size))
  unfolding receive_loop
  receive_step fuel total t r next small lt e f =
      let below : ltb (to_unsigned (pos total)) size ≡ true = ground arith in rw (below, e, f)

  -- the loop stops at a total that is not below `size` as an unsigned number
  receive_stop :
      (fuel : ℕ) (total : ℤ) (t : Trace D)
      → size ≤ to_unsigned total
      → receive_loop (suc fuel) sock size total k t ≡ done total t
  unfolding receive_loop
  receive_stop fuel total t ge =
      let above : ltb (to_unsigned total) size ≡ false = ground arith in rw above

  -- If every `recv` returns between 1 and `size` bytes, the loop ends with at least `size` and fewer
  -- than 2 * `size` bytes, after at most as many calls as bytes, given fuel for `size` + 1 rounds.
  pub receive_loop-Received :
      (fuel total : ℕ) (t : Trace D)
      → Delivers
      → size < 2 ^ 30
      → total < size
      → size < fuel + total
      → Received total t (receive_loop fuel sock size (pos total) k t)
  unfolding copies calls received
  receive_loop-Received zero total t delivers small lt enough = absurd (omega arith)
  receive_loop-Received (suc zero) total t delivers small lt enough = absurd (omega arith)
  receive_loop-Received (suc (suc fuel)) total t delivers small lt enough =
      let (b, e, some_bytes, at_most) = delivers t in
      let next = log k t (recv sock size) in
      let step =
        receive_step (suc fuel) total t (pos b) (pos (total + b)) small lt e
          (add_pos total b (omega arith)) in
      elim (dec_lt (total + b) size) [
        | yes more ↦
            let r =
              receive_loop-Received (suc fuel) (total + b) next delivers small more (omega arith) in
            record {
              count = r.count;
              rounds = suc r.rounds;
              final = r.final;
              result = step ∙ r.result;
              enough = r.enough;
              bounded = r.bounded;
              few = omega (arith, r.few);
              called = r.called ∙ copies-cons r.rounds (recv sock size) (calls t);
              bytes = omega (arith, r.bytes, ap (delivered {D = D} (recv sock size)) e);
            }
        | no stop ↦ record {
          count = total + b;
          rounds = 1;
          final = next;
          result = step ∙ receive_stop fuel (pos (total + b)) next (omega arith);
          enough = omega arith;
          bounded = omega arith;
          few = omega arith;
          called = refl;
          bytes = omega (arith, ap (delivered {D = D} (recv sock size)) e);
        }
      ]

  -- If every `recv` fails with -1, the loop counts each failure as -1 bytes and ends with the total
  -- -1, which as an unsigned number is not below any size: the round trip counts as complete, after
  -- one call more than the bytes received before.
  pub receive_loop-failing :
      (fuel total : ℕ) (t : Trace D)
      → Fails
      → size < 2 ^ 30
      → total < size
      → total + 1 < fuel
      → (t' : Trace D) × (receive_loop fuel sock size (pos total) k t ≡ done (negsuc 0) t')
        × (calls t' ≡ copies (suc total) (recv sock size) (calls t))
  unfolding copies calls
  receive_loop-failing zero total t fails small lt enough = absurd (omega arith)
  receive_loop-failing (suc zero) total t fails small lt enough = absurd (omega arith)
  receive_loop-failing (suc (suc fuel)) zero t fails small lt enough = (
    log k t (recv sock size),
    receive_step (suc fuel) 0 t (negsuc 0) (negsuc 0) small lt (fails t) minus_one
        ∙ receive_stop fuel (negsuc 0) (log k t (recv sock size)) (omega arith),
    refl,
  )
  receive_loop-failing (suc (suc fuel)) (suc total) t fails small lt enough =
      let (t', run, called) =
        receive_loop-failing (suc fuel) total (log k t (recv sock size)) fails small (omega arith)
          (omega arith) in
      (
        t',
        receive_step (suc fuel) (suc total) t (negsuc 0) (pos total) small lt (fails t)
              (sub_one total (omega arith))
            ∙ run,
        called ∙ copies-cons (suc total) (recv sock size) (calls t),
      )

  -- If every `recv` returns 0, as it does once the peer has closed the connection, the loop uses up
  -- any fuel: it never ends.
  pub receive_loop-closed :
      (fuel total : ℕ) (t : Trace D)
      → IsClosed
      → size < 2 ^ 30
      → total < size
      → (t' : Trace D) × (receive_loop fuel sock size (pos total) k t ≡ looping t')
        × (calls t' ≡ copies fuel (recv sock size) (calls t))
  unfolding receive_loop copies calls
  receive_loop-closed zero total t closed small lt = (t, refl, refl)
  receive_loop-closed (suc fuel) total t closed small lt =
      let (t', run, called) =
        receive_loop-closed fuel total (log k t (recv sock size)) closed small lt in
      let same : total + 0 ≡ total = omega arith in
      (
        t',
        receive_step fuel total t (pos 0) (pos total) small lt (closed t)
              (add_pos total 0 (omega arith) ∙ ap pos same)
            ∙ run,
        called ∙ copies-cons fuel (recv sock size) (calls t),
      )
