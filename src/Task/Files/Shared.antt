-- ===== src/Task/Files/Shared.antt =====
-- A fork and the end of the child in task/task.c: what they leave of the open files of fs/vfs.c.
use plant_os.Base.{
  ℕ, zero, suc, ◌+◌, ◌-◌, ◌%◌, ◌^◌, ◌<◌, ◌≤◌, ◌≡◌, ◌≢◌, refl, sym, ap, ap₂, ◌∙◌, true, ◌&&◌, Option,
  none, some, List, [], ◌∷◌, length, ltb, ltb→lt, &&-eq-true, ℕ_discrete, arith,
}
use mathlib.Core.Path.{subst}
use plant_os.Fs.Vfs.{OpenFile, Fat, Vfs, no_file, file_at, is_open}
use plant_os.Fs.Vfs.Names.{vfs_fd_addref, vfs_close_fd}
use plant_os.Task.Files.{fork_fds, close_quietly, close_each, task_close_fds}
use plant_os.Task.Files.Modify.{
  modify, set-modify, length-modify, modify-this, modify-other, modify-modify, modify-undo,
}

abbrev up : OpenFile → OpenFile
up f = record f { refcount = f.refcount + 1 }

abbrev down : OpenFile → OpenFile
down f = record f { refcount = f.refcount - 1 }

abbrev changed : {F : Type 0} → Vfs F → ℕ → (OpenFile → OpenFile) → Vfs F
changed s fd g = record s { fd_table = modify s.fd_table fd g }

-- An open descriptor with at least `least` references, and room for `n` more.
pub record IsHeld {F : Type 0} (s : Vfs F) (fd least n : ℕ) : Type 0 where
  pub opened : is_open s fd ≡ true
  pub counted : least ≤ (file_at s fd).refcount
  pub room : (file_at s fd).refcount + n < 2 ^ 32

-- All descriptors of the task are so.
unfoldable pub AllHeld : {F : Type 0} → Vfs F → ℕ → List (Option ℕ) → Type 0
AllHeld s n [] = n ≡ n
AllHeld s n (none ∷ ofd) = AllHeld s n ofd
AllHeld s n (some fd ∷ ofd) = IsHeld s fd 1 n × AllHeld s n ofd

module _ {F : Type 0} (s : Vfs F) (fd : ℕ) where
  held-range : {least n : ℕ} → IsHeld s fd least n → fd < length s.fd_table
  held-range h = ltb→lt _ _ (&&-eq-true _ _ h.opened).0

  addref-changed : (n : ℕ) → IsHeld s fd 1 (suc n) → vfs_fd_addref s fd ≡ changed s fd up
  unfolding vfs_fd_addref
  addref-changed n h =
      let no_wrap : ((file_at s fd).refcount + 1) % 2 ^ 32 ≡ (file_at s fd).refcount + 1 =
        omega (arith, h.room) in
      rw (vfs_fd_addref, h.opened, no_wrap)
        (ap (λ l. record s { fd_table = l }) (set-modify s.fd_table fd up no_file))

  close-changed :
      (ops : Fat F) (n : ℕ) → IsHeld s fd 2 n → close_quietly ops s fd ≡ changed s fd down
  unfolding close_quietly vfs_close_fd
  close-changed ops n h =
      let many : ltb 1 (file_at s fd).refcount ≡ true = ground (arith, h.counted) in
      rw (close_quietly, vfs_close_fd, h.opened, many)
        (ap (λ l. record s { fd_table = l }) (set-modify s.fd_table fd down no_file))

module _ {F : Type 0} (s : Vfs F) (fd : ℕ) where
  IsHeld-at :
      (s' : Vfs F) (least n : ℕ)
      → is_open s fd ≡ true
      → length s'.fd_table ≡ length s.fd_table
      → (file_at s' fd).used ≡ (file_at s fd).used
      → least ≤ (file_at s' fd).refcount
      → (file_at s' fd).refcount + n < 2 ^ 32
      → IsHeld s' fd least n
  IsHeld-at s' least n opened len used counted room = record {
    opened = ap₂ (λ n b. ltb fd n && b) len used ∙ opened;
    counted = counted;
    room = room;
  }

  -- A change of another descriptor.
  other-IsHeld :
      (p least n : ℕ) (g : OpenFile → OpenFile)
      → fd ≢ p
      → IsHeld s fd least n
      → IsHeld (changed s p g) fd least n
  other-IsHeld p least n g ne h =
      let e = modify-other s.fd_table p fd g no_file ne in
      IsHeld-at (changed s p g) least n h.opened (length-modify s.fd_table p g) (ap (λ f. f.used) e)
        (omega (arith, ap (λ f. f.refcount) e, h.counted))
        (omega (arith, ap (λ f. f.refcount) e, h.room))

  up-this : (least n : ℕ) → IsHeld s fd least (suc n) → IsHeld (changed s fd up) fd (suc least) n
  up-this least n h =
      let e = modify-this s.fd_table fd up no_file (held-range s fd h) in
      IsHeld-at (changed s fd up) (suc least) n h.opened (length-modify s.fd_table fd up)
        (ap (λ f. f.used) e) (omega (arith, ap (λ f. f.refcount) e, h.counted))
        (omega (arith, ap (λ f. f.refcount) e, h.room))

  down-this : (least n : ℕ) → IsHeld s fd (suc least) n → IsHeld (changed s fd down) fd least n
  down-this least n h =
      let e = modify-this s.fd_table fd down no_file (held-range s fd h) in
      IsHeld-at (changed s fd down) least n h.opened (length-modify s.fd_table fd down)
        (ap (λ f. f.used) e) (omega (arith, ap (λ f. f.refcount) e, h.counted))
        (omega (arith, ap (λ f. f.refcount) e, h.room))

less-IsHeld :
    {F : Type 0} (s : Vfs F) (fd least more n m : ℕ)
    → least ≤ more
    → n ≤ m
    → IsHeld s fd more m
    → IsHeld s fd least n
less-IsHeld s fd least more n m l k h = record {
  opened = h.opened;
  counted = omega (arith, h.counted);
  room = omega (arith, h.room);
}

-- Another reference of any descriptor.
up-IsHeld :
    {F : Type 0} (s : Vfs F) (p fd least n : ℕ)
    → IsHeld s fd least (suc n)
    → IsHeld (changed s p up) fd least n
up-IsHeld s p fd least n h = elim (ℕ_discrete fd p) [
  | yes eq ↦
      subst (λ q. IsHeld (changed s q up) fd least n) eq
        (less-IsHeld (changed s fd up) fd least (suc least) n n (omega arith) (omega arith)
          (up-this s fd least n h))
  | no ne ↦
      less-IsHeld (changed s p up) fd least least n (suc n) (omega arith) (omega arith)
        (other-IsHeld s fd p least (suc n) up ne h)
]

up-AllHeld :
    {F : Type 0} (s : Vfs F) (p n : ℕ) (ofd : List (Option ℕ))
    → AllHeld s (suc n) ofd
    → AllHeld (changed s p up) n ofd
unfolding AllHeld
up-AllHeld s p n [] h = refl
up-AllHeld s p n (none ∷ ofd) h = up-AllHeld s p n ofd h
up-AllHeld s p n (some fd ∷ ofd) h = (up-IsHeld s p fd 1 n h.0, up-AllHeld s p n ofd h.1)

-- One reference fewer of a descriptor that has two.
down-IsHeld :
    {F : Type 0} (s : Vfs F) (p fd n : ℕ)
    → IsHeld s p 2 n
    → IsHeld s fd 1 n
    → IsHeld (changed s p down) fd 1 n
down-IsHeld s p fd n two h = elim (ℕ_discrete fd p) [
  | yes eq ↦ subst (λ q. IsHeld (changed s p down) q 1 n) (sym eq) (down-this s p 1 n two)
  | no ne ↦ other-IsHeld s fd p 1 n down ne h
]

module _ {F : Type 0} (s : Vfs F) (p fd n : ℕ) (two : IsHeld s fd 2 n) where
  up-down : changed (changed s p up) fd down ≡ changed (changed s fd down) p up
  up-down =
      let r = (file_at s fd).refcount in
      let e : r + 1 - 1 ≡ r - 1 + 1 = omega (arith, two.counted) in
      ap (λ l. record s { fd_table = l })
        (modify-modify s.fd_table p fd up down no_file
          (λ same. ap (λ k. record (file_at s fd) { refcount = k }) e))

-- One descriptor closed after the fork is one reference fewer before it.
close-fork :
    {F : Type 0} (ops : Fat F) (ofd : List (Option ℕ)) (s : Vfs F) (fd n : ℕ)
    → IsHeld s fd 2 n
    → AllHeld s n ofd
    → length ofd ≤ n
    → close_quietly ops (fork_fds s ofd) fd ≡ fork_fds (changed s fd down) ofd
unfolding fork_fds AllHeld
close-fork ops [] s fd n two all le = close-changed s fd ops n two
close-fork ops (none ∷ ofd) s fd n two all le = close-fork ops ofd s fd n two all (omega arith)
close-fork ops (some p ∷ ofd) s fd zero two all le = absurd (omega arith)
close-fork ops (some p ∷ ofd) s fd (suc n) two all le =
    ap (λ a. close_quietly ops (fork_fds a ofd) fd) (addref-changed s p n all.0)
    ∙ close-fork ops ofd (changed s p up) fd n (up-IsHeld s p fd 2 n two)
        (up-AllHeld s p n ofd all.1) (omega arith)
    ∙ ap (λ a. fork_fds a ofd)
        (up-down s p fd (suc n) two
          ∙ sym (addref-changed (changed s fd down) p n (down-IsHeld s fd p (suc n) two all.0)))

each-fork :
    {F : Type 0} (ops : Fat F) (ofd : List (Option ℕ)) (s : Vfs F) (n : ℕ)
    → AllHeld s n ofd
    → length ofd ≤ n
    → close_each ops (fork_fds s ofd) ofd ≡ s
unfolding fork_fds close_each AllHeld
each-fork ops [] s n all le = refl
each-fork ops (none ∷ ofd) s n all le = each-fork ops ofd s n all (omega arith)
each-fork ops (some fd ∷ ofd) s zero all le = absurd (omega arith)
each-fork ops (some fd ∷ ofd) s (suc n) all le =
    let s1 = changed s fd up in
    let r = (file_at s fd).refcount in
    let e : r + 1 - 1 ≡ r = omega arith in
    let undone : changed s1 fd down ≡ s =
      ap (λ l. record s { fd_table = l })
        (modify-undo s.fd_table fd up down no_file
          (ap (λ k. record (file_at s fd) { refcount = k }) e)) in
    ap (λ a. close_each ops (close_quietly ops (fork_fds a ofd) fd) ofd)
      (addref-changed s fd n all.0)
    ∙ ap (λ a. close_each ops a ofd)
        (close-fork ops ofd s1 fd n (up-this s fd 1 n all.0) (up-AllHeld s fd n ofd all.1)
            (omega arith)
          ∙ ap (λ a. fork_fds a ofd) undone)
    ∙ each-fork ops ofd s (suc n) all.1 (omega arith)

-- If a child has the descriptors of its parent from `task_fork` and closes them all, the open files,
-- pipes and the FAT driver are as before the fork. The descriptors are open, each with a reference
-- at least, and no counter can reach its end.
pub task_close_fds-fork_fds :
    {F : Type 0} (ops : Fat F) (s : Vfs F) (ofd : List (Option ℕ))
    → AllHeld s (length ofd) ofd
    → (task_close_fds ops (fork_fds s ofd) ofd).0 ≡ s
unfolding task_close_fds
task_close_fds-fork_fds ops s ofd all = each-fork ops ofd s (length ofd) all (omega arith)
