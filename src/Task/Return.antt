-- ===== src/Task/Return.antt =====
-- `signal_deliver` and `signal_return` of task/signal.c: the handler is left for the interrupted code.
use plant_os.Base.{
  ℕ, ◌+◌, ◌-◌, ◌%◌, ◌^◌, ◌<◌, ◌≡◌, ◌≢◌, refl, sym, ap, ◌∙◌, ◌==◌, ==_iff, true, false, arith,
}
use plant_os.Task.{Frame, Task}
use plant_os.Task.Signal.{put_word, enter_handler, signal_return}

put_word-this : (m : ℕ → ℕ) (a x b : ℕ) → a ≡ b → put_word m a x b ≡ x
put_word-this m a x b eq = let e : (a == b) ≡ true = (==_iff _ _).1 eq in rw e refl

put_word-other : (m : ℕ → ℕ) (a x b : ℕ) → a ≢ b → put_word m a x b ≡ m b
put_word-other m a x b ne = let e : (a == b) ≡ false = ground (arith, ne) in rw e refl

-- A handler that returns with its stack pointer as it was and the two words there, the address and
-- the flags of the interrupted code, unchanged, returns to the interrupted code: `rip`, `rflags` and `rsp` are as
-- before the delivery, and `rdi` is what the handler left.
pub signal_return-enter_handler :
    (t : Task) (sig handler : ℕ) (regs : Frame) (memory : ℕ → ℕ)
    → t.frame.rsp < 2 ^ 64
    → regs.rsp ≡ (enter_handler t sig handler).frame.rsp
    → memory regs.rsp ≡ (enter_handler t sig handler).memory regs.rsp
    → memory ((regs.rsp + 8) % 2 ^ 64)
      ≡ (enter_handler t sig handler).memory ((regs.rsp + 8) % 2 ^ 64)
    → signal_return regs memory ≡ record t.frame { rdi = regs.rdi }
unfolding signal_return enter_handler
signal_return-enter_handler t sig handler regs memory small same w w' =
    let sp = (t.frame.rsp + 2 ^ 64 - 24) % 2 ^ 64 in
    let m1 = put_word t.memory ((sp + 16) % 2 ^ 64) sig in
    let m2 = put_word m1 ((sp + 8) % 2 ^ 64) t.frame.rflags in
    let above = (regs.rsp + 8) % 2 ^ 64 in
    let same_above : (sp + 8) % 2 ^ 64 ≡ above = ap (λ a. (a + 8) % 2 ^ 64) (sym same) in
    let apart : sp ≢ above = λ eq. omega (arith, eq, same) in
    let at_sp : memory regs.rsp ≡ t.frame.rip =
      w ∙ put_word-this m2 sp t.frame.rip regs.rsp (sym same) in
    let at_above : memory above ≡ t.frame.rflags =
      w'
      ∙ put_word-other m2 sp t.frame.rip above apart
      ∙ put_word-this m1 ((sp + 8) % 2 ^ 64) t.frame.rflags above same_above in
    let back : (regs.rsp + 24) % 2 ^ 64 ≡ t.frame.rsp = omega (arith, same, small) in
    rw (signal_return, at_sp, at_above, back) refl
