-- ===== src/Task.antt =====
-- task/task.c, task/sched.c and task/signal.c: the tasks, the choice of the next one, and signals. A
-- pointer to a task is its place in `task_pool`. The circular list is `ring`: the tasks from the
-- current one's `next` on, each once. The address spaces, the FPU state and the task's TSS are left
-- out, as is the memory that is freed.
pub mod Signal
pub mod Choice
pub mod Waiting
pub mod Turn
pub mod Return
pub mod Killed
pub mod Files
mod Tests
use plant_os.Base.{
  ℕ, zero, suc, ◌+◌, ◌-◌, ◌*◌, ◌/◌, ◌%◌, ◌^◌, Bool, true, false, ◌&&◌, ◌||◌, not, Option, none,
  some, List, [], ◌∷◌, ◌++◌, length, get_or, set, take, drop, replicate, map, find_index, ltb, leb,
  ◌==◌, if◌then◌else◌,
}

-- `task_state_t`
pub data TaskState : Type 0 where
  unused : TaskState
  ready : TaskState
  running : TaskState
  zombie : TaskState
  blocked : TaskState
  stopped : TaskState

-- The numbers of the states, and `==` on them.
abbrev pub state_code : TaskState → ℕ
state_code unused = 0
state_code ready = 1
state_code running = 2
state_code zombie = 3
state_code blocked = 4
state_code stopped = 5

abbrev pub in_state : TaskState → TaskState → Bool
in_state a b = state_code a == state_code b

-- What is saved at `rsp` of a task, as far as signals change it.
pub record Frame : Type 0 where
  pub rip : ℕ
  pub rflags : ℕ
  pub rsp : ℕ
  pub rdi : ℕ

-- `struct task`, with the frame at `rsp` and the words of its user memory.
pub record Task : Type 0 where
  pub rsp : ℕ
  pub pid : ℕ
  pub state : TaskState
  pub ticks : ℕ
  pub is_user : Bool
  pub pending_signals : ℕ
  pub signal_handlers : List ℕ
  pub block_channel : Option ℕ
  pub frame : Frame
  pub memory : ℕ → ℕ

abbrev pub max_tasks : ℕ
max_tasks = 64

abbrev pub max_signals : ℕ
max_signals = 12

abbrev pub no_task : Task
no_task = record {
  rsp = 0;
  pid = 0;
  state = unused;
  ticks = 0;
  is_user = false;
  pending_signals = 0;
  signal_handlers = replicate max_signals 0;
  block_channel = none;
  frame = record { rip = 0; rflags = 0; rsp = 0; rdi = 0 };
  memory = λ a. 0;
}

pub record Tasks : Type 0 where
  pub task_pool : List Task
  pub current : Option ℕ
  pub ring : List ℕ

abbrev pub task_at : Tasks → ℕ → Task
task_at s i = get_or s.task_pool i no_task

abbrev pub with_task : Tasks → ℕ → Task → Tasks
with_task s i t = record s { task_pool = set s.task_pool i t }

unfoldable pub task_insert : Tasks → ℕ → Tasks
task_insert s t = elim s.current [
  | none ↦ record s { ring = t ∷ [] }
  | some cur ↦ record s { ring = t ∷ s.ring }
]

unfoldable pub without : List ℕ → ℕ → List ℕ
without [] t = []
without (x ∷ xs) t = let rest = without xs t in if x == t then rest else x ∷ rest

-- A task alone in the list stays there.
unfoldable pub task_unlink : Tasks → ℕ → Tasks
task_unlink s t = record s { ring = if length s.ring == 1 then s.ring else without s.ring t }

unfoldable pub task_block : Tasks → ℕ → Tasks
task_block s channel = elim s.current [
  | none ↦ s
  | some cur ↦
      with_task s cur (record (task_at s cur) { state = blocked; block_channel = some channel })
]

abbrev pub waits_on : ℕ → Task → Bool
waits_on channel t =
    in_state t.state blocked && (elim t.block_channel [ none ↦ false | some c ↦ c == channel ])

abbrev pub awake : Task → Task
awake t = record t { state = ready; block_channel = none }

unfoldable pub wake_all_of : Tasks → List ℕ → ℕ → Tasks
wake_all_of s [] channel = s
wake_all_of s (i ∷ is) channel =
    wake_all_of (if waits_on channel (task_at s i) then with_task s i (awake (task_at s i)) else s)
      is channel

-- The loop visits the tasks of the list, of which the current one is.
unfoldable pub task_wake_all : Tasks → ℕ → Tasks
task_wake_all s channel = elim s.current [
  | none ↦ s
  | some cur ↦ wake_all_of s (cur ∷ s.ring) channel
]

unfoldable pub wake_one_of : Tasks → List ℕ → ℕ → Tasks
wake_one_of s [] channel = s
wake_one_of s (i ∷ is) channel =
    let rest = wake_one_of s is channel in
    if waits_on channel (task_at s i) then with_task s i (awake (task_at s i)) else rest

unfoldable pub task_wake_one : Tasks → ℕ → Tasks
task_wake_one s channel = elim s.current [
  | none ↦ s
  | some cur ↦ wake_one_of s (cur ∷ s.ring) channel
]

unfoldable pub task_find : Tasks → ℕ → Option ℕ
task_find s pid = find_index (λ t. (t.pid == pid) && not (in_state t.state unused)) s.task_pool

unfoldable pub task_active_count : List Task → ℕ
task_active_count [] = 0
task_active_count (t ∷ ts) =
    let n = task_active_count ts in
    if in_state t.state ready
      || in_state t.state running
      || in_state t.state blocked
      || in_state t.state stopped
    then n + 1
    else n

unfoldable pub task_stop : Tasks → ℕ → Tasks
task_stop s t =
    if in_state (task_at s t).state unused || in_state (task_at s t).state zombie
    then s
    else task_wake_all
        (with_task s t (record (task_at s t) { state = stopped; block_channel = none })) t

unfoldable pub task_continue : Tasks → ℕ → Tasks
task_continue s t =
    if in_state (task_at s t).state stopped
    then with_task s t (record (task_at s t) { state = ready })
    else s
