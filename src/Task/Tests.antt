-- ===== src/Task/Tests.antt =====
-- Two tasks and the clock; descriptors in a fork.
use plant_os.Base.{
  false, none, ℕ, zero, suc, ◌≤◌, ◌≡◌, refl, true, some, [], ◌∷◌, take, find_index, arith,
}
use plant_os.Fs.Vfs.{Fat, Vfs, no_file}
use plant_os.Task.Files.{fork_fds, task_close_fds}
use plant_os.Task.Files.Shared.{IsHeld, AllHeld, task_close_fds-fork_fds}
use plant_os.Task.{ready, running, Frame, Task, no_task, Tasks, task_at, with_task}
use plant_os.Task.Signal.{is_pending, enter_handler, signal_return}
use plant_os.Task.Choice.{next_ready, save_current, schedule_from_irq}
use plant_os.Task.Waiting.{IsWaiting}
use plant_os.Task.Turn.{schedules, schedules-turn}
use plant_os.Task.Return.{signal_return-enter_handler}
use plant_os.Task.Killed.{IsAstray, schedule_from_irq-IsAstray}

-- The first task runs and the second, of a user, is ready.
abbrev two_tasks : Tasks
two_tasks = record {
  task_pool =
      record no_task { rsp = 100; state = running }
      ∷ record no_task { rsp = 200; pid = 1; state = ready; is_user = true }
      ∷ [];
  current = some 0;
  ring = 1 ∷ 0 ∷ [];
}

no-signals : (i : ℕ) → (task_at two_tasks i).pending_signals ≡ 0
no-signals zero = refl
no-signals (suc zero) = refl
no-signals (suc (suc i)) = refl

second-IsWaiting : IsWaiting two_tasks 1 0
second-IsWaiting = record {
  quiet = no-signals;
  on = (0, refl);
  in_ring = omega arith;
  placed = refl;
  is_ready = refl;
}

schedules-turn_example :
    (k : ℕ) × (k ≤ 1) × ((schedules two_tasks (take k (300 ∷ []))).current ≡ some 1)
schedules-turn_example = schedules-turn 0 two_tasks 1 (300 ∷ []) second-IsWaiting (omega arith)

-- The second task has SIGKILL.
abbrev killed : Tasks
killed = with_task two_tasks 1 (record (task_at two_tasks 1) { pending_signals = 2 })

next-killed : next_ready (save_current killed 0 300) ≡ some 0
unfolding next_ready save_current find_index
next-killed = refl

pending-kill : is_pending 2 1 ≡ true
unfolding is_pending
pending-kill = refl

schedule_from_irq-IsAstray_example : IsAstray 1 300 (schedule_from_irq killed 300)
schedule_from_irq-IsAstray_example =
    schedule_from_irq-IsAstray killed 0 0 300 refl next-killed (omega arith) refl pending-kill

-- A task at the address 5 with the stack at 4096, and its handler at 9 for SIGINT, which changes `rdi`.
abbrev caught : Task
caught = record no_task { frame = record { rip = 5; rflags = 2; rsp = 4096; rdi = 0 } }

abbrev left : Frame
left = record { rip = 9; rflags = 0; rsp = 4072; rdi = 77 }

left-rsp : 4072 ≡ (enter_handler caught 6 9).frame.rsp
unfolding enter_handler
left-rsp = refl

signal_return-enter_handler_example :
    signal_return left (enter_handler caught 6 9).memory
    ≡ record { rip = 5; rflags = 2; rsp = 4096; rdi = 77 }
signal_return-enter_handler_example =
    signal_return-enter_handler caught 6 9 left (enter_handler caught 6 9).memory (omega arith)
      left-rsp refl refl

-- A FAT driver without a volume, and one open file.
abbrev no_volume : Fat ℕ
no_volume = record {
  fat_open = λ s path flags. (s, none);
  fat_close = λ s fd. s;
  fat_read = λ s fd n. (s, none);
  fat_write = λ s fd xs. (s, none);
  fat_stat = λ s path. (s, none);
  fat_mkdir = λ s path. (s, none);
  fat_unlink = λ s path. (s, none);
  fat_readdir = λ s fd. (s, none);
  fat_unmount = λ s. s;
}

abbrev one_open : Vfs ℕ
one_open = record {
  fd_table = record no_file { used = true; refcount = 2 } ∷ [];
  inode_table = [];
  pipes = [];
  fat_mpoint = [];
  fat_mounted = false;
  fat = 0;
}

open-IsHeld : IsHeld one_open 0 1 3
open-IsHeld = record { opened = refl; counted = omega arith; room = omega arith }

-- Two descriptors of the file, and the console between them.
all-AllHeld : AllHeld one_open 3 (some 0 ∷ none ∷ some 0 ∷ [])
unfolding AllHeld
all-AllHeld = (open-IsHeld, (open-IsHeld, refl))

task_close_fds-fork_fds_example :
    (task_close_fds no_volume
      (fork_fds one_open (some 0 ∷ none ∷ some 0 ∷ []))
      (some 0 ∷ none ∷ some 0 ∷ [])).0
    ≡ one_open
task_close_fds-fork_fds_example =
    task_close_fds-fork_fds no_volume one_open (some 0 ∷ none ∷ some 0 ∷ []) all-AllHeld
