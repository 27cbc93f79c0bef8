-- ===== src/Task/Turn.antt =====
-- Round robin in task/sched.c: a task that is ready gets its turn.
use plant_os.Base.{
  ℕ, suc, ◌<◌, ◌≤◌, ◌≡◌, refl, ◌⊎◌, inl, inr, some, List, [], ◌∷◌, length, get_or, take, Bool-cases,
  arith,
}
use plant_os.Task.{unused, in_state, Tasks, task_at}
use plant_os.Task.Signal.{signal_deliver}
use plant_os.Task.Choice.{save_current, switch_to, resume, schedule_from_irq}
use plant_os.Task.Waiting.{
  IsWaiting, save-IsWaiting, next_ready-before, switch-nearer, deliver-IsQuiet, switch-IsQuiet,
}

resume-quiet :
    (s : Tasks) (next old_rsp : ℕ) → signal_deliver s next ≡ s → (resume s next old_rsp).0 ≡ s
unfolding resume
resume-quiet s next old_rsp e = elim (Bool-cases (in_state (task_at s next).state unused)) [
  | inl h ↦ rw (resume, e, h) refl
  | inr h ↦ rw (resume, e, h) refl
]

-- One call of `schedule_from_irq` for each stack pointer of the list.
unfoldable pub schedules : Tasks → List ℕ → Tasks
schedules s [] = s
schedules s (rsp ∷ rsps) = schedules (schedule_from_irq s rsp).0 rsps

schedule-nearer :
    (s : Tasks) (old_rsp j i : ℕ)
    → IsWaiting s j i
    → ((schedule_from_irq s old_rsp).0.current ≡ some j)
      ⊎ ((i' : ℕ) × (i' < i) × IsWaiting (schedule_from_irq s old_rsp).0 j i')
unfolding schedule_from_irq resume
schedule-nearer s old_rsp j i w =
    let (cur, on) = w.on in
    let s1 = save_current s cur old_rsp in
    let w1 = save-IsWaiting s cur old_rsp j i w in
    let (k, e, le) = next_ready-before s1 j i w1 in
    let s2 = switch_to s1 cur k in
    let quiet = deliver-IsQuiet s2 (get_or s1.ring k 0) (switch-IsQuiet s1 cur k w1.quiet) in
    rw (schedule_from_irq, on, e, resume-quiet s2 (get_or s1.ring k 0) old_rsp quiet)
      (switch-nearer s1 cur j i k w1 le)

-- A task that is ready at the place `i` of the list, while no task has a signal, is the current one
-- after at most `i + 1` of any calls of `schedule_from_irq` in a row.
pub schedules-turn :
    (i : ℕ) (s : Tasks) (j : ℕ) (rsps : List ℕ)
    → IsWaiting s j i
    → i < length rsps
    → (k : ℕ) × (k ≤ suc i) × ((schedules s (take k rsps)).current ≡ some j)
unfolding schedules
schedules-turn i s j [] w lt = absurd (omega arith)
schedules-turn i s j (rsp ∷ rsps) w lt = elim (schedule-nearer s rsp j i w) [
  | inl done ↦ (1, omega arith, done)
  | inr (i', less, w') ↦
      let (k, le, e) =
        schedules-turn i' (schedule_from_irq s rsp).0 j rsps w' (omega (arith, less)) in
      (suc k, omega (arith, le, less), e)
]
