-- ===== src/Task/Killed.antt =====
-- A task that task/sched.c chooses and task/signal.c kills at once.
use plant_os.Base.{
  ℕ, ◌<◌, ◌≡◌, refl, sym, ap, inl, inr, ◌∙◌, true, false, some, length, get_or, get_or-set,
  length-set, ◌==◌, ==_iff, Bool-cases, ℕ_discrete, arith,
}
use mathlib.Core.Path.{subst}
use plant_os.Task.{unused, ready, running, in_state, Task, Tasks, no_task, task_at, with_task}
use plant_os.Task.Signal.{
  is_pending, first_pending, without_signal, kill_by_signal, deliver_one, signal_deliver,
}
use plant_os.Task.Choice.{save_current, next_ready, switch_to, resume, schedule_from_irq, is_alive}
use plant_os.Task.Waiting.{switch-current, save-ring, save-keeps, switch-keeps}

kill-unused :
    (s : Tasks) (i : ℕ) (t : Task)
    → i < length s.task_pool
    → (task_at (kill_by_signal s i t) i).state ≡ unused
unfolding kill_by_signal
kill-unused s i t h =
    let this : (i == i) ≡ true = (==_iff _ _).1 refl in
    let dead = record t { state = unused } in
    let stored : task_at (with_task s i dead) i ≡ dead =
      get_or-set s.task_pool i i dead no_task h ∙ rw this refl in
    ap (λ t. t.state) stored

-- The first signal is SIGKILL.
first-kill : (pending : ℕ) → is_pending pending 1 ≡ true → first_pending pending 1 11 ≡ some 1
unfolding first_pending
first-kill pending h = rw h refl

module _ (s : Tasks) (i : ℕ) (in_range : i < length s.task_pool)
    (user : (task_at s i).is_user ≡ true)
    (kill : is_pending (task_at s i).pending_signals 1 ≡ true) where
  abbrev signalled : Task
  signalled = record (task_at s i) {
    pending_signals = without_signal (task_at s i).pending_signals 1;
  }

  one-kill_by_signal : deliver_one s i 1 ≡ kill_by_signal s i signalled
  unfolding deliver_one
  one-kill_by_signal = refl

  deliver-one : signal_deliver s i ≡ deliver_one s i 1
  unfolding signal_deliver is_pending
  deliver-one =
      let some_signal : ((task_at s i).pending_signals == 0) ≡ false =
        elim (ℕ_discrete (task_at s i).pending_signals 0) [
          | no ne ↦ ground (arith, ne)
          | yes eq ↦ absurd (ground (arith, eq, rw eq at kill))
        ] in
      rw (signal_deliver, some_signal, user, first-kill (task_at s i).pending_signals kill) refl

  deliver-kill_by_signal : signal_deliver s i ≡ kill_by_signal s i signalled
  deliver-kill_by_signal = deliver-one ∙ one-kill_by_signal

  deliver-unused : (task_at (signal_deliver s i) i).state ≡ unused
  deliver-unused =
      ap (λ s. (task_at s i).state) deliver-kill_by_signal ∙ kill-unused s i signalled in_range

  deliver-current : (signal_deliver s i).current ≡ s.current
  unfolding kill_by_signal
  deliver-current = ap (λ s. s.current) deliver-kill_by_signal

-- The killed task is current, its state is unused, and the processor goes on with the stack of the
-- interrupted task, whose registers no later call saves.
pub record IsAstray (next old_rsp : ℕ) (r : Tasks × ℕ) : Type 0 where
  pub goes_on : r.1 ≡ old_rsp
  pub on_dead : r.0.current ≡ some next
  pub dead : (task_at r.0 next).state ≡ unused
  pub never_saved : (later_rsp : ℕ) → save_current r.0 next later_rsp ≡ r.0

resume-IsAstray :
    (s : Tasks) (next old_rsp : ℕ)
    → next < length s.task_pool
    → (task_at s next).is_user ≡ true
    → is_pending (task_at s next).pending_signals 1 ≡ true
    → s.current ≡ some next
    → IsAstray next old_rsp (resume s next old_rsp)
unfolding resume save_current
resume-IsAstray s next old_rsp in_range user kill on =
    let dead = deliver-unused s next in_range user kill in
    let e : in_state (task_at (signal_deliver s next) next).state unused ≡ true = rw dead refl in
    rw (resume, e)
      (record {
        goes_on = refl;
        on_dead = deliver-current s next in_range user kill ∙ on;
        dead = dead;
        never_saved = λ later. rw (save_current, dead) refl;
      })

save-length :
    (s : Tasks) (cur old_rsp : ℕ)
    → length (save_current s cur old_rsp).task_pool ≡ length s.task_pool
unfolding save_current
save-length s cur old_rsp = elim (Bool-cases (is_alive (task_at s cur).state)) [
  | inl e ↦ rw e (length-set s.task_pool cur _)
  | inr e ↦ rw e refl
]

switch-length : (s : Tasks) (cur k : ℕ) → length (switch_to s cur k).task_pool ≡ length s.task_pool
unfolding switch_to
switch-length s cur k = elim (Bool-cases (in_state (task_at s cur).state running)) [
  | inl e ↦
      let woken = record (task_at s cur) { state = ready } in
      let first = with_task s cur woken in
      let next = get_or s.ring k 0 in
      rw e (
        length-set first.task_pool next (record (task_at first next) { state = running })
        ∙ length-set s.task_pool cur woken)
  | inr e ↦ rw e (length-set s.task_pool (get_or s.ring k 0) _)
]

-- If the next ready task is a user's with SIGKILL pending, `schedule_from_irq` makes it current and
-- kills it, and goes on with the stack pointer of the interrupted task; while the dead task is
-- current no call saves the registers of the one that runs.
pub schedule_from_irq-IsAstray :
    (s : Tasks) (cur k old_rsp : ℕ)
    → s.current ≡ some cur
    → next_ready (save_current s cur old_rsp) ≡ some k
    → get_or s.ring k 0 < length s.task_pool
    → (task_at s (get_or s.ring k 0)).is_user ≡ true
    → is_pending (task_at s (get_or s.ring k 0)).pending_signals 1 ≡ true
    → IsAstray (get_or s.ring k 0) old_rsp (schedule_from_irq s old_rsp)
unfolding schedule_from_irq
schedule_from_irq-IsAstray s cur k old_rsp on e in_range user kill =
    let next = get_or s.ring k 0 in
    let s1 = save_current s cur old_rsp in
    let s2 = switch_to s1 cur k in
    let ring = save-ring s cur old_rsp in
    let user_kept : (task_at s2 next).is_user ≡ true =
      switch-keeps (λ t. t.is_user ≡ true) (λ t st h. h) s1 cur k next
        (save-keeps s cur old_rsp (λ t. t.is_user ≡ true) next (λ t r n h. h) user) in
    let kill_kept : is_pending (task_at s2 next).pending_signals 1 ≡ true =
      switch-keeps (λ t. is_pending t.pending_signals 1 ≡ true) (λ t st h. h) s1 cur k next
        (save-keeps s cur old_rsp (λ t. is_pending t.pending_signals 1 ≡ true) next (λ t r n h. h)
          kill) in
    let inside : next < length s2.task_pool =
      omega (arith, switch-length s1 cur k, save-length s cur old_rsp, in_range) in
    let on2 : s2.current ≡ some next =
      switch-current s1 cur k ∙ ap (λ r. some (get_or r k 0)) ring in
    rw (schedule_from_irq, on, e)
      (subst (λ r. IsAstray next old_rsp (resume s2 (get_or r k 0) old_rsp)) (sym ring)
        (resume-IsAstray s2 next old_rsp inside user_kept kill_kept on2))
