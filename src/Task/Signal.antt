-- ===== src/Task/Signal.antt =====
-- task/signal.c: signals sent, caught and delivered. A bit of `pending_signals` is taken out of the
-- number by division; the handlers are addresses, 0 for none.
use plant_os.Base.{
  ℕ, zero, suc, ◌+◌, ◌-◌, ◌%◌, ◌/◌, ◌^◌, Bool, ◌&&◌, ◌||◌, not, Option, none, some, length, get_or,
  set, ltb, leb, ◌==◌, if◌then◌else◌,
}
use plant_os.Task.{
  unused, blocked, stopped, in_state, Frame, Task, Tasks, max_signals, task_at, with_task, awake,
  without, task_find, task_stop, task_continue,
}

abbrev pub sigkill : ℕ
sigkill = 1

abbrev pub sigtstp : ℕ
sigtstp = 7

abbrev pub sigstop : ℕ
sigstop = 8

abbrev pub sigcont : ℕ
sigcont = 9

-- `pending & (1 << sig)`, `pending | (1 << sig)` and `pending & ~(1 << sig)`
unfoldable pub is_pending : ℕ → ℕ → Bool
is_pending pending sig = (pending / 2 ^ sig) % 2 == 1

unfoldable pub with_signal : ℕ → ℕ → ℕ
with_signal pending sig = if is_pending pending sig then pending else pending + 2 ^ sig

unfoldable pub without_signal : ℕ → ℕ → ℕ
without_signal pending sig = if is_pending pending sig then pending - 2 ^ sig else pending

-- `signal_send` of SIGCONT.
unfoldable pub send_cont : Tasks → ℕ → Tasks
send_cont s i =
    let t = task_at s i in
    let s' = with_task s i (record t {
      pending_signals = without_signal (without_signal t.pending_signals sigtstp) sigstop;
    }) in
    if in_state t.state stopped then task_continue s' i else s'

-- A signal that is left pending; the target is woken.
unfoldable pub send_pending : Tasks → ℕ → ℕ → Tasks
send_pending s i sig =
    let t = record (task_at s i) {
      pending_signals = with_signal (task_at s i).pending_signals sig;
    } in
    with_task s i (if in_state t.state blocked then awake t else t)

unfoldable pub send_to : Tasks → ℕ → ℕ → Tasks
send_to s i sig =
    if sig == sigcont
    then send_cont s i
    else if (sig == sigstop)
        || ((sig == sigtstp) && (get_or (task_at s i).signal_handlers sigtstp 0 == 0))
    then task_stop s i
    else send_pending s i sig

-- `none` is the result -1.
unfoldable pub signal_send : Tasks → ℕ → ℕ → Option Tasks
signal_send s pid sig = if ltb sig 1 || leb max_signals sig then none else (elim (task_find s pid) [
  | none ↦ none
  | some i ↦ if (task_at s i).is_user then some (send_to s i sig) else none
])

unfoldable pub signal_register : Tasks → ℕ → ℕ → Option Tasks
signal_register s sig handler =
    if ltb sig 1 || leb max_signals sig || (sig == sigkill) || (sig == sigstop)
    then none
    else (elim s.current [
      | none ↦ none
      | some cur ↦
          let t = task_at s cur in
          some (with_task s cur (record t { signal_handlers = set t.signal_handlers sig handler }))
    ])

-- A store of a 64-bit word.
abbrev pub put_word : (ℕ → ℕ) → ℕ → ℕ → ℕ → ℕ
put_word memory a x b = if a == b then x else memory b

-- The call of a handler: three words on the user stack, and the frame that enters it.
unfoldable pub enter_handler : Task → ℕ → ℕ → Task
enter_handler t sig handler =
    let f = t.frame in
    let sp = (f.rsp + 2 ^ 64 - 24) % 2 ^ 64 in
    record t {
      memory =
          put_word
            (put_word (put_word t.memory ((sp + 16) % 2 ^ 64) sig) ((sp + 8) % 2 ^ 64) f.rflags) sp
            f.rip;
      frame = record f { rip = handler; rsp = sp; rdi = sig };
    }

-- SIGKILL, or no handler: the task is out of the list, if it was not alone there, and its place free.
unfoldable pub kill_by_signal : Tasks → ℕ → Task → Tasks
kill_by_signal s i t = record (with_task s i (record t { state = unused })) {
  ring = if length s.ring == 1 then s.ring else without s.ring i;
}

unfoldable pub deliver_one : Tasks → ℕ → ℕ → Tasks
deliver_one s i sig =
    let t = record (task_at s i) {
      pending_signals = without_signal (task_at s i).pending_signals sig;
    } in
    let handler = get_or t.signal_handlers sig 0 in
    if (sig == sigkill) || (handler == 0)
    then kill_by_signal s i t
    else with_task s i (enter_handler t sig handler)

-- The first pending signal of `n` from `sig` on.
unfoldable pub first_pending : ℕ → ℕ → ℕ → Option ℕ
first_pending pending sig zero = none
first_pending pending sig (suc n) =
    let rest = first_pending pending (sig + 1) n in
    if is_pending pending sig then some sig else rest

unfoldable pub signal_deliver : Tasks → ℕ → Tasks
signal_deliver s i =
    let t = task_at s i in
    if (t.pending_signals == 0) || not t.is_user
    then s
    else (elim (first_pending t.pending_signals 1 (max_signals - 1)) [
      | none ↦ s
      | some sig ↦ deliver_one s i sig
    ])

unfoldable pub signal_return : Frame → (ℕ → ℕ) → Frame
signal_return regs memory = record regs {
  rip = memory regs.rsp;
  rflags = memory ((regs.rsp + 8) % 2 ^ 64);
  rsp = (regs.rsp + 24) % 2 ^ 64;
}
