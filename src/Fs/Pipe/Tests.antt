-- ===== src/Fs/Pipe/Tests.antt =====
-- A pipe, run.
use plant_os.Base.{
  ℕ, ◌<◌, ◌≡◌, ◌≢◌, refl, true, false, none, some, List, [], ◌∷◌, ◌++◌, length, length-replicate,
  replicate, arith,
}
use plant_os.Fs.Pipe.{
  Pipe, Files, no_fd, alloc_fd, pipe_alloc, pipe_create, pipe_buf_size, empty_pipe, read_waits,
  wakes, pipe_read, pipe_write, pipe_write_on,
}
use plant_os.Fs.Pipe.Buffer.{IsRing, unread}
use plant_os.Fs.Pipe.Fifo.{Op, read, write, read_on, run, left, run-unread, pipe_write-waits}

-- One pipe, and room for two descriptors.
abbrev files : Files
files = record { pipes = empty_pipe ∷ []; fd_table = no_fd ∷ no_fd ∷ [] }

created : (pipe_create files).1 ≡ some (0, 1)
unfolding pipe_create pipe_alloc alloc_fd plant_os.Base.find_index empty_pipe
created = refl

-- With room for one only nothing stays taken.
given_back :
    (pipe_create (record files { fd_table = no_fd ∷ [] })).0.fd_table
    ≡ (record no_fd { refcount = 1 }) ∷ []
unfolding pipe_create pipe_alloc alloc_fd plant_os.Base.find_index empty_pipe
given_back = refl

abbrev pipe : Pipe
pipe = record empty_pipe { readers = 1; writers = 1; used = true }

pipe-IsRing : IsRing pipe
unfolding empty_pipe
pipe-IsRing = record {
  storage = length-replicate {A = ℕ} pipe_buf_size 0;
  read_in = omega arith;
  count_in = omega arith;
  write_at = omega arith;
}

abbrev steps : List Op
steps = write (1 ∷ 2 ∷ []) ∷ read 1 ∷ write (3 ∷ []) ∷ read_on 5 false ∷ []

run-unread_example :
    let (p', out, inp) = run pipe steps in IsRing p' × (out ++ unread p' ≡ unread pipe ++ inp)
run-unread_example = run-unread pipe steps pipe-IsRing

pipe_write-waits_example :
    let (p', look) = pipe_write pipe (replicate 4097 7) in
    ((pipe_read pipe 1).1 ≡ read_waits)
    × (p'.count ≡ pipe_buf_size)
    × (0 < length (left look))
    × (wakes look ≡ false)
    × ((pipe_write_on p' (left look)).1 ≡ look)
unfolding empty_pipe
pipe_write-waits_example =
    pipe_write-waits pipe (replicate 4097 7) 1 pipe-IsRing refl (ground arith) (ground arith)
      (rw (length-replicate {A = ℕ} 4097 7) (omega arith))
