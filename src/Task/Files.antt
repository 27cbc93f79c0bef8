-- ===== src/Task/Files.antt =====
-- The descriptors of a task in task/task.c, over the open files of fs/vfs.c: `ofd` is a list in which
-- `none` stands for the negative entries.
pub mod Modify
pub mod Shared
use plant_os.Base.{ℕ, Option, none, some, List, [], ◌∷◌, replicate, length}
use plant_os.Fs.Vfs.{Fat, Vfs}
use plant_os.Fs.Vfs.Names.{vfs_fd_addref, vfs_close_fd}

-- `task_fork`: the child has the descriptors of its parent.
unfoldable pub fork_fds : {F : Type 0} → Vfs F → List (Option ℕ) → Vfs F
fork_fds s [] = s
fork_fds s (none ∷ ofd) = fork_fds s ofd
fork_fds s (some fd ∷ ofd) = fork_fds (vfs_fd_addref s fd) ofd

module _ {F : Type 0} (ops : Fat F) where
  -- The result of `vfs_close_fd` is not looked at.
  unfoldable pub close_quietly : Vfs F → ℕ → Vfs F
  close_quietly s fd = elim (vfs_close_fd ops s fd) [ none ↦ s | some s' ↦ s' ]

  -- The loop of `task_close_fds`; each entry is OFD_NONE behind it.
  unfoldable pub close_each : Vfs F → List (Option ℕ) → Vfs F
  close_each s [] = s
  close_each s (none ∷ ofd) = close_each s ofd
  close_each s (some fd ∷ ofd) = close_each (close_quietly s fd) ofd

  unfoldable pub task_close_fds : Vfs F → List (Option ℕ) → Vfs F × List (Option ℕ)
  task_close_fds s ofd = (close_each s ofd, replicate (length ofd) none)
