-- ===== src/Task/Waiting.antt =====
-- A task that waits for its turn in task/sched.c, and one choice of the next task.
use plant_os.Base.{
  ℕ, zero, suc, ◌+◌, ◌-◌, ◌<◌, ◌≤◌, ◌≡◌, ◌≢◌, refl, sym, ap, ◌∙◌, ◌⊎◌, inl, inr, true, false, some,
  List, [], ◌∷◌, ◌++◌, length, get_or, set, take, drop, get_or-set, length-append, length-take,
  find_index-cases, ◌==◌, ==_iff, Bool-cases, dec_lt, ℕ_discrete, arith,
}
use mathlib.Core.Path.{subst}
use plant_os.Task.{TaskState, ready, running, in_state, Task, Tasks, no_task, task_at, with_task}
use plant_os.Task.Signal.{signal_deliver}
use plant_os.Task.Choice.{save_current, next_ready, switch_to, is_alive}

set_outside : {A : Type 0} (xs : List A) (i : ℕ) (v : A) → length xs ≤ i → set xs i v ≡ xs
set_outside [] i v h = refl
set_outside (x ∷ xs) zero v h = absurd (omega arith)
set_outside (x ∷ xs) (suc i) v h = ap (λ l. x ∷ l) (set_outside xs i v (omega arith))

-- What holds of a task and of what is stored over it holds after the store.
pub with_task-keeps :
    (P : Task → Type 0) (s : Tasks) (i : ℕ) (t : Task) (j : ℕ)
    → P (task_at s j)
    → (i ≡ j → P t)
    → P (task_at (with_task s i t) j)
with_task-keeps P s i t j old new = elim (dec_lt i (length s.task_pool)) [
  | yes h ↦ elim (ℕ_discrete i j) [
    | yes eq ↦
        let e : (i == j) ≡ true = (==_iff _ _).1 eq in
        subst P (sym (get_or-set s.task_pool i j t no_task h ∙ rw e refl)) (new eq)
    | no ne ↦
        let e : (i == j) ≡ false = ground (arith, ne) in
        subst P (sym (get_or-set s.task_pool i j t no_task h ∙ rw e refl)) old
  ]
  | no h ↦
      subst P (ap (λ l. get_or l j no_task) (sym (set_outside s.task_pool i t (omega arith)))) old
]

-- No task has a signal.
abbrev pub IsQuiet : Tasks → Type 0
IsQuiet s = (i : ℕ) → (task_at s i).pending_signals ≡ 0

abbrev pub IsReady : Tasks → ℕ → Type 0
IsReady s j = in_state (task_at s j).state ready ≡ true

module _ (s : Tasks) (cur old_rsp : ℕ) where
  pub save-ring : (save_current s cur old_rsp).ring ≡ s.ring
  unfolding save_current
  save-ring = elim (Bool-cases (is_alive (task_at s cur).state)) [
    | inl e ↦ rw e refl
    | inr e ↦ rw e refl
  ]

  save-current : (save_current s cur old_rsp).current ≡ s.current
  unfolding save_current
  save-current = elim (Bool-cases (is_alive (task_at s cur).state)) [
    | inl e ↦ rw e refl
    | inr e ↦ rw e refl
  ]

  -- The current task's state and signals are as they were.
  pub save-keeps :
      (P : Task → Type 0) (j : ℕ)
      → ((t : Task) (r k : ℕ) → P t → P (record t { rsp = r; ticks = k }))
      → P (task_at s j)
      → P (task_at (save_current s cur old_rsp) j)
  unfolding save_current
  save-keeps P j stable h = elim (Bool-cases (is_alive (task_at s cur).state)) [
    | inl e ↦
        rw (save_current, e)
          (with_task-keeps P s cur _ j h
            (λ eq. stable (task_at s cur) _ _ (subst (λ i. P (task_at s i)) (sym eq) h)))
    | inr e ↦ rw (save_current, e) h
  ]

-- What does not hang on the states is kept by a store of a state.
module _ (P : Task → Type 0)
    (stable : (t : Task) (st : TaskState) → P t → P (record t { state = st })) where
  restate-keeps :
      (s : Tasks) (i : ℕ) (st : TaskState) (j : ℕ)
      → P (task_at s j)
      → P (task_at (with_task s i (record (task_at s i) { state = st })) j)
  restate-keeps s i st j h =
      with_task-keeps P s i (record (task_at s i) { state = st }) j h
        (λ eq. stable (task_at s i) st (subst (λ k. P (task_at s k)) (sym eq) h))

  pub switch-keeps : (s : Tasks) (cur k j : ℕ) → P (task_at s j) → P (task_at (switch_to s cur k) j)
  unfolding switch_to
  switch-keeps s cur k j h = elim (Bool-cases (in_state (task_at s cur).state running)) [
    | inl e ↦
        rw (switch_to, e)
          (restate-keeps (with_task s cur (record (task_at s cur) { state = ready }))
            (get_or s.ring k 0) running j (restate-keeps s cur ready j h))
    | inr e ↦ rw (switch_to, e) (restate-keeps s (get_or s.ring k 0) running j h)
  ]

module _ (s : Tasks) (cur k : ℕ) where
  switch-ring : (switch_to s cur k).ring ≡ drop (suc k) s.ring ++ take (suc k) s.ring
  unfolding switch_to
  switch-ring = refl

  pub switch-current : (switch_to s cur k).current ≡ some (get_or s.ring k 0)
  unfolding switch_to
  switch-current = refl

  switch-IsReady : (j : ℕ) → get_or s.ring k 0 ≢ j → IsReady s j → IsReady (switch_to s cur k) j
  unfolding switch_to
  switch-IsReady j ne h =
      let P : Task → Type 0 = λ t. in_state t.state ready ≡ true in
      elim (Bool-cases (in_state (task_at s cur).state running)) [
        | inl e ↦
            rw (switch_to, e)
              (with_task-keeps P (with_task s cur _) (get_or s.ring k 0) _ j
                (with_task-keeps P s cur _ j h (λ eq. refl)) (λ eq. absurd (ne eq)))
        | inr e ↦
            rw (switch_to, e) (with_task-keeps P s (get_or s.ring k 0) _ j h (λ eq. absurd (ne eq)))
      ]

  pub switch-IsQuiet : IsQuiet s → IsQuiet (switch_to s cur k)
  switch-IsQuiet q i = switch-keeps (λ t. t.pending_signals ≡ 0) (λ t st h. h) s cur k i (q i)

pub deliver-IsQuiet : (s : Tasks) (i : ℕ) → IsQuiet s → signal_deliver s i ≡ s
unfolding signal_deliver
deliver-IsQuiet s i q = rw (signal_deliver, q i) refl

get_or-drop : (n k : ℕ) (xs : List ℕ) → get_or (drop n xs) k 0 ≡ get_or xs (n + k) 0
get_or-drop zero k xs = ap (λ i. get_or xs i 0) (plus-zero k)
  where
    plus-zero : (k : ℕ) → k ≡ 0 + k
    plus-zero k = omega arith
get_or-drop (suc n) k [] = refl
get_or-drop (suc n) k (x ∷ xs) = get_or-drop n k xs ∙ ap (λ i. get_or (x ∷ xs) i 0) (suc-plus n k)
  where
    suc-plus : (n k : ℕ) → suc (n + k) ≡ suc n + k
    suc-plus n k = omega arith

get_or-append : (xs ys : List ℕ) (i : ℕ) → i < length xs → get_or (xs ++ ys) i 0 ≡ get_or xs i 0
get_or-append [] ys i h = absurd (omega arith)
get_or-append (x ∷ xs) ys zero h = refl
get_or-append (x ∷ xs) ys (suc i) h = get_or-append xs ys i (omega arith)

length-drop : (n : ℕ) (xs : List ℕ) → length (drop n xs) ≡ length xs - n
length-drop zero xs = omega arith
length-drop (suc n) [] = omega arith
length-drop (suc n) (x ∷ xs) = omega (arith, length-drop n xs)

-- Behind the first `n` entries, which go to the end.
rotated :
    (xs : List ℕ) (n i : ℕ)
    → n ≤ i
    → i < length xs
    → get_or (drop n xs ++ take n xs) (i - n) 0 ≡ get_or xs i 0
rotated xs n i le lt =
    let back : n + (i - n) ≡ i = omega arith in
    get_or-append (drop n xs) (take n xs) (i - n) (omega (arith, length-drop n xs))
    ∙ get_or-drop n (i - n) xs
    ∙ ap (λ k. get_or xs k 0) back

length-rotated : (xs : List ℕ) (n : ℕ) → length (drop n xs ++ take n xs) ≡ length xs
length-rotated xs n =
    omega (arith, length-append (drop n xs) (take n xs), length-drop n xs, length-take n xs)

-- The task `j` is ready, at the place `i` of the list, while no task has a signal.
pub record IsWaiting (s : Tasks) (j i : ℕ) : Type 0 where
  pub quiet : IsQuiet s
  pub on : (cur : ℕ) × (s.current ≡ some cur)
  pub in_ring : i < length s.ring
  pub placed : get_or s.ring i 0 ≡ j
  pub is_ready : IsReady s j

pub save-IsWaiting :
    (s : Tasks) (cur old_rsp j i : ℕ) → IsWaiting s j i → IsWaiting (save_current s cur old_rsp) j i
save-IsWaiting s cur old_rsp j i w = record {
  quiet = λ k. save-keeps s cur old_rsp (λ t. t.pending_signals ≡ 0) k (λ t r n h. h) (w.quiet k);
  on = (w.on.0, save-current s cur old_rsp ∙ w.on.1);
  in_ring = rw (save-ring s cur old_rsp) w.in_ring;
  placed = rw (save-ring s cur old_rsp) w.placed;
  is_ready =
      save-keeps s cur old_rsp (λ t. in_state t.state ready ≡ true) j (λ t r n h. h) w.is_ready;
}

-- The first ready task of the list is not behind the one at `i`.
pub next_ready-before :
    (s : Tasks) (j i : ℕ) → IsWaiting s j i → (k : ℕ) × (next_ready s ≡ some k) × (k ≤ i)
unfolding next_ready
next_ready-before s j i w =
    elim (find_index-cases (λ i. in_state (task_at s i).state ready) 0 s.ring) [
      | inl (e, all) ↦ absurd (ground (arith, all i w.in_ring, rw (sym w.placed) at w.is_ready))
      | inr (k, e, f) ↦ (
        k,
        e,
        elim (dec_lt i k) [
          | no h ↦ omega (arith, h)
          | yes h ↦ absurd (ground (arith, f.earlier i h, rw (sym w.placed) at w.is_ready))
        ],
      )
    ]

-- After a switch the task is current, or waits at a place nearer.
pub switch-nearer :
    (s : Tasks) (cur j i k : ℕ)
    → IsWaiting s j i
    → k ≤ i
    → ((switch_to s cur k).current ≡ some j)
      ⊎ ((i' : ℕ) × (i' < i) × IsWaiting (switch_to s cur k) j i')
unfolding switch_to
switch-nearer s cur j i k w le = elim (ℕ_discrete (get_or s.ring k 0) j) [
  | yes eq ↦ inl (ap some eq)
  | no ne ↦
      let further : k ≢ i = λ eq. ne (ap (λ n. get_or s.ring n 0) eq ∙ w.placed) in
      inr (
        i - suc k,
        omega (arith, further),
        record {
          quiet = switch-IsQuiet s cur k w.quiet;
          on = (get_or s.ring k 0, refl);
          in_ring = rw (length-rotated s.ring (suc k)) (omega (arith, w.in_ring));
          placed = rotated s.ring (suc k) i (omega (arith, further)) w.in_ring ∙ w.placed;
          is_ready = switch-IsReady s cur k j ne w.is_ready;
        },
      )
]
