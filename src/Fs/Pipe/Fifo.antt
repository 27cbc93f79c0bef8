-- ===== src/Fs/Pipe/Fifo.antt =====
-- The steps of readers and writers of a pipe, in any order.
use plant_os.Base.{
  ℕ, ◌-◌, ◌<◌, ◌≡◌, ◌≢◌, refl, sym, ◌∙◌, ap, inl, inr, Bool, true, false, List, [], ◌∷◌, ◌++◌,
  length, take, ltb, ◌==◌, Bool-cases, arith,
}
use mathlib.Core.List.{append-nil, append_assoc}
use plant_os.Fs.Pipe.{
  Pipe, pipe_buf_size, ReadLook, at_end, read_waits, interrupted, bytes_read, pipe_read,
  pipe_read_on, pipe_fill, WriteLook, broken, write_waits, all_written, wakes, write_rest,
  pipe_write, pipe_write_on,
}
use plant_os.Fs.Pipe.Buffer.{IsRing, unread, pipe_fill_lem, pipe_take_lem}

-- A step of a call: its start, or what follows a wait.
pub data Op : Type 0 where
  read : ℕ → Op
  read_on : ℕ → Bool → Op
  write : List ℕ → Op
  write_on : List ℕ → Op

-- The bytes that a reader gets, and those that a writer has written in the step.
abbrev pub got : ReadLook → List ℕ
got at_end = []
got read_waits = []
got interrupted = []
got (bytes_read xs) = xs

abbrev pub left : WriteLook → List ℕ
left (broken xs) = xs
left (write_waits xs) = xs
left all_written = []

abbrev pub put : List ℕ → WriteLook → List ℕ
put xs look = take (length xs - length (left look)) xs

-- The pipe, the bytes read and the bytes written.
abbrev pub step : Pipe → Op → Pipe × List ℕ × List ℕ
step p (read n) = let (p', look) = pipe_read p n in (p', got look, [])
step p (read_on n pending) = let (p', look) = pipe_read_on p n pending in (p', got look, [])
step p (write xs) = let (p', look) = pipe_write p xs in (p', [], put xs look)
step p (write_on xs) = let (p', look) = pipe_write_on p xs in (p', [], put xs look)

abbrev pub run : Pipe → List Op → Pipe × List ℕ × List ℕ
run p [] = (p, [], [])
run p (o ∷ os) =
    let (p', out, inp) = step p o in
    let (p'', outs, inps) = run p' os in (p'', out ++ outs, inp ++ inps)

read_lem :
    (p : Pipe) (n : ℕ)
    → IsRing p
    → let (p', look) = pipe_read p n in IsRing p' × (got look ++ unread p' ≡ unread p)
unfolding pipe_read
read_lem p n r = elim (Bool-cases (p.count == 0)) [
  | inl empty ↦ elim (Bool-cases (p.writers == 0)) [
    | inl closed ↦ rw (empty, closed) (r, refl)
    | inr still ↦ rw (empty, still) (r, refl)
  ]
  | inr some_in ↦ elim (Bool-cases (ltb p.count n)) [
    | inl few ↦
        let (r', e, _) = pipe_take_lem p.count p r (omega arith) in rw (some_in, few) (r', e)
    | inr enough ↦
        let (r', e, _) = pipe_take_lem n p r (ground arith) in rw (some_in, enough) (r', e)
  ]
]

-- A step of a writer that does not give up.
write_rest_lem :
    (p : Pipe) (xs rest : List ℕ)
    → ((write_rest p rest).0 ≡ p)
      × (put xs (write_rest p rest).1 ≡ take (length xs - length rest) xs)
unfolding write_rest
write_rest_lem p xs [] = (refl, refl)
write_rest_lem p xs (y ∷ ys) = elim (Bool-cases (p.readers == 0)) [
  | inl e ↦ rw (write_rest, e) (refl, refl)
  | inr e ↦ rw (write_rest, e) (refl, refl)
]

write_on_lem :
    (p : Pipe) (xs : List ℕ)
    → IsRing p
    → let (p', look) = pipe_write_on p xs in IsRing p' × (unread p' ≡ unread p ++ put xs look)
unfolding pipe_write_on
write_on_lem p xs r =
    let (r', e, _, _, _, _) = pipe_fill_lem p xs r in
    let (p', rest) = pipe_fill p xs in
    let (same, written) = write_rest_lem p' xs rest in
    (rw same r', ap unread same ∙ e ∙ ap (◌++◌ (unread p)) (sym written))

write_lem :
    (p : Pipe) (xs : List ℕ)
    → IsRing p
    → let (p', look) = pipe_write p xs in IsRing p' × (unread p' ≡ unread p ++ put xs look)
unfolding pipe_write pipe_write_on
write_lem p xs r = elim (Bool-cases (p.readers == 0)) [
  | inl e ↦
      let none_taken : length xs - length xs ≡ 0 = omega arith in
      rw (pipe_write, e, none_taken) (r, rw append-nil refl)
  | inr e ↦ rw (pipe_write, e) (write_on_lem p xs r)
]

step_lem :
    (p : Pipe) (o : Op)
    → IsRing p
    → let (p', out, inp) = step p o in IsRing p' × (out ++ unread p' ≡ unread p ++ inp)
unfolding pipe_read_on
step_lem p (read n) r = let (r', e) = read_lem p n r in (r', e ∙ rw append-nil refl)
step_lem p (read_on n true) r = (r, rw append-nil refl)
step_lem p (read_on n false) r = let (r', e) = read_lem p n r in (r', e ∙ rw append-nil refl)
step_lem p (write xs) r = write_lem p xs r
step_lem p (write_on xs) r = write_on_lem p xs r

-- Whatever the readers and writers do, in any order of their steps: the bytes read so far, followed by
-- those that wait in the pipe, are the bytes that waited at first, followed by those written. So every
-- byte that a writer has written is read once, in the order of the writes.
pub run-unread :
    (p : Pipe) (os : List Op)
    → IsRing p
    → let (p', out, inp) = run p os in IsRing p' × (out ++ unread p' ≡ unread p ++ inp)
run-unread p [] r = (r, rw append-nil refl)
run-unread p (o ∷ os) r =
    let (r', e) = step_lem p o r in
    let (r'', e') = run-unread (step p o).0 os r' in
    (
      r'',
      append_assoc (step p o).1 (run (step p o).0 os).1 (unread (run (step p o).0 os).0)
          ∙ ap (◌++◌ (step p o).1) e'
          ∙ sym (append_assoc (step p o).1 (unread (step p o).0) (run (step p o).0 os).2)
          ∙ ap (λ l. l ++ (run (step p o).0 os).2) e
          ∙ append_assoc (unread p) (step p o).2 (run (step p o).0 os).2,
    )

write_rest-waits :
    (p : Pipe) (rest : List ℕ)
    → p.readers ≢ 0
    → 0 < length rest
    → write_rest p rest ≡ (p, write_waits rest)
unfolding write_rest
write_rest-waits p [] rs h = absurd (omega arith)
write_rest-waits p (x ∷ xs) rs h =
    let some_reader : (p.readers == 0) ≡ false = ground (arith, rs) in rw some_reader refl

fill_full : (p : Pipe) (xs : List ℕ) → p.count ≡ pipe_buf_size → pipe_fill p xs ≡ (p, xs)
unfolding pipe_fill
fill_full p [] h = refl
fill_full p (x ∷ xs) h =
    let full : (p.count == pipe_buf_size) ≡ true = ground (arith, h) in rw (pipe_fill, full) refl

-- A reader that waits at an empty pipe is left waiting by a writer of more than 4096 bytes: the step of
-- the writer fills the buffer and ends with a wait for room, of which it wakes nobody.
pub pipe_write-waits :
    (p : Pipe) (xs : List ℕ) (n : ℕ)
    → IsRing p
    → p.count ≡ 0
    → p.writers ≢ 0
    → p.readers ≢ 0
    → pipe_buf_size < length xs
    → let (p', look) = pipe_write p xs in
      ((pipe_read p n).1 ≡ read_waits)
      × (p'.count ≡ pipe_buf_size)
      × (0 < length (left look))
      × (wakes look ≡ false)
      × ((pipe_write_on p' (left look)).1 ≡ look)
unfolding pipe_write pipe_read pipe_write_on
pipe_write-waits p xs n r empty ws rs long =
    let (r', _, _, m, total, same) = pipe_fill_lem p xs r in
    let (p', rest) = pipe_fill p xs in
    let some_left : 0 < length rest = omega (arith, total, r'.count_in, empty) in
    let full : p'.count ≡ pipe_buf_size = m some_left in
    let rs' : p'.readers ≢ 0 = λ z. rs (sym same ∙ z) in
    let waits = write_rest-waits p' rest rs' some_left in
    let no_writer : (p.writers == 0) ≡ false = ground (arith, ws) in
    let no_reader : (p.readers == 0) ≡ false = ground (arith, rs) in
    (
      rw (pipe_read, empty, no_writer) refl,
      rw (pipe_write, no_reader, waits) full,
      rw (pipe_write, no_reader, waits) some_left,
      rw (pipe_write, no_reader, waits) refl,
      rw (pipe_write, no_reader, waits, pipe_write_on, fill_full p' rest full, waits) refl,
    )
