-- ===== src/Fs/Pipe.antt =====
-- fs/pipe.c, with the table of open files of fs/vfs.c as far as pipes use it. A pipe is a place of
-- `pipes[]`. A call that waits stops there: what it does from one wait to the next is one step, since
-- other tasks run in between.
pub mod Buffer
pub mod Fifo
mod Tests
use plant_os.Base.{
  ℕ, zero, suc, ◌+◌, ◌-◌, ◌%◌, ◌^◌, Bool, true, false, ◌&&◌, ◌||◌, not, Option, none, some, List,
  [], ◌∷◌, length, get_or, set, replicate, find_index, ltb, leb, ◌==◌, if◌then◌else◌,
}

-- `struct pipe`
pub record Pipe : Type 0 where
  pub buf : List ℕ
  pub read_pos : ℕ
  pub write_pos : ℕ
  pub count : ℕ
  pub readers : ℕ
  pub writers : ℕ
  pub used : Bool

abbrev pub pipe_buf_size : ℕ
pipe_buf_size = 4096

-- All bytes 0.
unfoldable pub empty_pipe : Pipe
empty_pipe = record {
  buf = replicate pipe_buf_size 0;
  read_pos = 0;
  write_pos = 0;
  count = 0;
  readers = 0;
  writers = 0;
  used = false;
}

-- `struct vfs_fd`, of which pipes use these fields. `pipe_mode` is 1 for PIPE_READ, 2 for PIPE_WRITE.
pub record VfsFd : Type 0 where
  pub used : Bool
  pub refcount : ℕ
  pub pipe : Option ℕ
  pub pipe_mode : ℕ

abbrev pub no_fd : VfsFd
no_fd = record { used = false; refcount = 0; pipe = none; pipe_mode = 0 }

pub record Files : Type 0 where
  pub pipes : List Pipe
  pub fd_table : List VfsFd

-- The first free slot, which is taken; `none` is -1.
unfoldable pub alloc_fd : List VfsFd → Option (ℕ × List VfsFd)
alloc_fd fds = elim (find_index (λ f. not f.used) fds) [
  | none ↦ none
  | some i ↦ some (i, set fds i (record { used = true; refcount = 1; pipe = none; pipe_mode = 0 }))
]

unfoldable pub vfs_get_fd : List VfsFd → ℕ → Option VfsFd
vfs_get_fd fds fd =
    if ltb fd (length fds) && (get_or fds fd no_fd).used then some (get_or fds fd no_fd) else none

unfoldable pub pipe_alloc : List Pipe → Option (ℕ × List Pipe)
pipe_alloc pipes = elim (find_index (λ p. not p.used) pipes) [
  | none ↦ none
  | some i ↦ some (i, set pipes i (record empty_pipe { used = true }))
]

-- The files with both ends of the pipe `p`, which was taken in `pipes`.
unfoldable pub open_ends : Files → ℕ → List Pipe → ℕ → ℕ → List VfsFd → Files
open_ends s p pipes rfd wfd fds = record {
  pipes = set pipes p (record (get_or pipes p empty_pipe) { readers = 1; writers = 1 });
  fd_table =
      set (set fds rfd (record (get_or fds rfd no_fd) { pipe = some p; pipe_mode = 1 })) wfd
        (record (get_or fds wfd no_fd) { pipe = some p; pipe_mode = 2 });
}

-- The two descriptors, or -1.
unfoldable pub pipe_create : Files → Files × Option (ℕ × ℕ)
pipe_create s = elim (pipe_alloc s.pipes) [
  | none ↦ (s, none)
  | some (p, pipes) ↦
      let freed = set pipes p (record (get_or pipes p empty_pipe) { used = false }) in
      elim (alloc_fd s.fd_table) [
        | none ↦ (record s { pipes = freed }, none)
        | some (rfd, fds) ↦ elim (alloc_fd fds) [
          | none ↦ (
            record {
              pipes = freed;
              fd_table = set fds rfd (record (get_or fds rfd no_fd) { used = false });
            },
            none,
          )
          | some (wfd, fds') ↦ (open_ends s p pipes rfd wfd fds', some (rfd, wfd))
        ]
      ]
]

-- One byte out of the buffer, and `n` of them.
unfoldable pub pipe_pop : Pipe → Pipe
pipe_pop p = record p { read_pos = (p.read_pos + 1) % pipe_buf_size; count = p.count - 1 }

unfoldable pub pipe_take : ℕ → Pipe → List ℕ × Pipe
pipe_take zero p = ([], p)
pipe_take (suc n) p =
    let rest = pipe_take n (pipe_pop p) in (get_or p.buf p.read_pos 0 ∷ rest.0, rest.1)

-- What `pipe_read` comes to from one wait to the next: the end of the stream, another wait, -1 for a
-- signal, or the bytes, when it wakes a writer.
pub data ReadLook : Type 0 where
  at_end : ReadLook
  read_waits : ReadLook
  interrupted : ReadLook
  bytes_read : List ℕ → ReadLook

unfoldable pub pipe_read : Pipe → ℕ → Pipe × ReadLook
pipe_read p n =
    let taken = pipe_take (if ltb p.count n then p.count else n) p in
    if p.count == 0
    then (if p.writers == 0 then (p, at_end) else (p, read_waits))
    else (taken.1, bytes_read taken.0)

-- After a wait; `pending` is whether a signal is.
unfoldable pub pipe_read_on : Pipe → ℕ → Bool → Pipe × ReadLook
pipe_read_on p n pending = if pending then (p, interrupted) else pipe_read p n

-- One byte into the buffer, and as many of the bytes as there is room for, with those that are left.
unfoldable pub pipe_push : Pipe → ℕ → Pipe
pipe_push p x = record p {
  buf = set p.buf p.write_pos x;
  write_pos = (p.write_pos + 1) % pipe_buf_size;
  count = p.count + 1;
}

unfoldable pub pipe_fill : Pipe → List ℕ → Pipe × List ℕ
pipe_fill p [] = (p, [])
pipe_fill p (x ∷ xs) =
    let rest = pipe_fill (pipe_push p x) xs in
    if p.count == pipe_buf_size then (p, x ∷ xs) else rest

-- What `pipe_write` comes to: SIGPIPE with the bytes that are left; another wait with bytes left,
-- without waking any reader; or all bytes written, when it wakes a reader.
pub data WriteLook : Type 0 where
  broken : List ℕ → WriteLook
  write_waits : List ℕ → WriteLook
  all_written : WriteLook

-- Whether the step ends with `task_wake_one`.
abbrev pub wakes : WriteLook → Bool
wakes (broken xs) = false
wakes (write_waits xs) = false
wakes all_written = true

unfoldable pub write_rest : Pipe → List ℕ → Pipe × WriteLook
write_rest p [] = (p, all_written)
write_rest p (x ∷ xs) = if p.readers == 0 then (p, broken (x ∷ xs)) else (p, write_waits (x ∷ xs))

-- At the start of a call and after each wait. (After a wait for room the call looks at `readers` only
-- if the buffer is still full.)
unfoldable pub pipe_write : Pipe → List ℕ → Pipe × WriteLook
pipe_write p xs =
    let filled = pipe_fill p xs in
    if p.readers == 0 then (p, broken xs) else write_rest filled.0 filled.1

unfoldable pub pipe_write_on : Pipe → List ℕ → Pipe × WriteLook
pipe_write_on p xs = let filled = pipe_fill p xs in write_rest filled.0 filled.1

-- The pipe of which the descriptor is the end `mode`; `none` is the result -2.
unfoldable pub pipe_end : List VfsFd → ℕ → ℕ → Option ℕ
pipe_end fds fd mode = elim (vfs_get_fd fds fd) [
  | none ↦ none
  | some f ↦ if f.pipe_mode == mode then f.pipe else none
]

-- A step of `pipe_fd_read` and of `pipe_fd_write`.
unfoldable pub pipe_fd_read : Files → ℕ → ℕ → Option (Files × ReadLook)
pipe_fd_read s fd n = elim (pipe_end s.fd_table fd 1) [
  | none ↦ none
  | some i ↦
      let (p, look) = pipe_read (get_or s.pipes i empty_pipe) n in
      some (record s { pipes = set s.pipes i p }, look)
]

unfoldable pub pipe_fd_write : Files → ℕ → List ℕ → Option (Files × WriteLook)
pipe_fd_write s fd xs = elim (pipe_end s.fd_table fd 2) [
  | none ↦ none
  | some i ↦
      let (p, look) = pipe_write (get_or s.pipes i empty_pipe) xs in
      some (record s { pipes = set s.pipes i p }, look)
]

-- One end less; the pipe is free when both ends have no descriptor.
unfoldable pub drop_end : Pipe → ℕ → Pipe
drop_end p mode =
    let p' =
      if mode == 1
      then record p { readers = (p.readers + 2 ^ 32 - 1) % 2 ^ 32 }
      else if mode == 2
      then record p { writers = (p.writers + 2 ^ 32 - 1) % 2 ^ 32 }
      else p in
    if p'.readers == 0 && p'.writers == 0 then record p' { used = false } else p'

unfoldable pub close_end : Files → ℕ → VfsFd → ℕ → Files
close_end s fd f i =
    if ltb 1 f.refcount
    then record s { fd_table = set s.fd_table fd (record f { refcount = f.refcount - 1 }) }
    else record {
      pipes = set s.pipes i (drop_end (get_or s.pipes i empty_pipe) f.pipe_mode);
      fd_table = set s.fd_table fd no_fd;
    }

-- `none` is the result -2.
unfoldable pub pipe_fd_close : Files → ℕ → Option Files
pipe_fd_close s fd = elim (vfs_get_fd s.fd_table fd) [
  | none ↦ none
  | some f ↦ elim f.pipe [ none ↦ none | some i ↦ some (close_end s fd f i) ]
]
