-- ===== src/Task/Choice.antt =====
-- `schedule_from_irq` of task/sched.c.
use plant_os.Base.{
  ℕ, suc, ◌+◌, ◌%◌, ◌^◌, Bool, ◌||◌, Option, none, some, ◌++◌, get_or, take, drop, find_index,
  if◌then◌else◌,
}
use plant_os.Task.{TaskState, unused, ready, running, blocked, in_state, Tasks, task_at, with_task}
use plant_os.Task.Signal.{signal_deliver}

abbrev pub is_alive : TaskState → Bool
is_alive st = in_state st running || in_state st ready || in_state st blocked

-- The current task's stack pointer and time.
unfoldable pub save_current : Tasks → ℕ → ℕ → Tasks
save_current s cur old_rsp =
    let t = task_at s cur in
    if is_alive t.state
    then with_task s cur (record t { rsp = old_rsp; ticks = (t.ticks + 1) % 2 ^ 64 })
    else s

-- The place in the list of the first task that is ready, the current one last.
unfoldable pub next_ready : Tasks → Option ℕ
next_ready s = find_index (λ i. in_state (task_at s i).state ready) s.ring

-- The task at the place `k` of the list is current; the list goes on behind it.
unfoldable pub switch_to : Tasks → ℕ → ℕ → Tasks
switch_to s cur k =
    let next = get_or s.ring k 0 in
    let s1 =
      if in_state (task_at s cur).state running
      then with_task s cur (record (task_at s cur) { state = ready })
      else s in
    record (with_task s1 next (record (task_at s1 next) { state = running })) {
      current = some next;
      ring = drop (suc k) s.ring ++ take (suc k) s.ring;
    }

-- Signals, and the stack pointer to go on with.
unfoldable pub resume : Tasks → ℕ → ℕ → Tasks × ℕ
resume s next old_rsp =
    let s' = signal_deliver s next in
    if in_state (task_at s' next).state unused then (s', old_rsp) else (s', (task_at s' next).rsp)

-- The current task is in a list, so that its `next` is not NULL.
unfoldable pub schedule_from_irq : Tasks → ℕ → Tasks × ℕ
schedule_from_irq s old_rsp = elim s.current [
  | none ↦ (s, old_rsp)
  | some cur ↦
      let s1 = save_current s cur old_rsp in
      elim (next_ready s1) [
        | none ↦ (s1, old_rsp)
        | some k ↦ resume (switch_to s1 cur k) (get_or s1.ring k 0) old_rsp
      ]
]
