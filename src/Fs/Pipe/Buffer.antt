-- ===== src/Fs/Pipe/Buffer.antt =====
-- The buffer of a pipe as a queue of bytes.
use plant_os.Base.{
  ℕ, zero, suc, ◌+◌, ◌-◌, ◌%◌, ◌≤◌, ◌<◌, ◌≡◌, refl, sym, ◌∙◌, ap, inl, inr, List, [], ◌∷◌, ◌++◌,
  length, length-set, get_or, set, take, queue, queue_pos, queue-set, ◌==◌, Bool-cases, arith,
}
use mathlib.Core.List.{append-nil, append_assoc}
use plant_os.Fs.Pipe.{Pipe, pipe_buf_size, pipe_pop, pipe_take, pipe_push, pipe_fill}

-- The two positions and the count agree, and stay inside the buffer.
pub record IsRing (p : Pipe) : Type 0 where
  pub storage : length p.buf ≡ pipe_buf_size
  pub read_in : p.read_pos < pipe_buf_size
  pub count_in : p.count ≤ pipe_buf_size
  pub write_at : p.write_pos ≡ (p.read_pos + p.count) % pipe_buf_size

-- The bytes written and not yet read, oldest first.
unfoldable pub unread : Pipe → List ℕ
unread p = queue p.buf pipe_buf_size p.read_pos p.count

pipe_push_lem :
    (p : Pipe) (x : ℕ)
    → IsRing p
    → p.count < pipe_buf_size
    → IsRing (pipe_push p x) × (unread (pipe_push p x) ≡ unread p ++ x ∷ [])
unfolding pipe_push unread
pipe_push_lem p x r h =
    let count : p.count + 1 ≡ suc p.count = omega arith in
    (
      record {
        storage = length-set p.buf p.write_pos x ∙ r.storage;
        read_in = r.read_in;
        count_in = omega arith;
        write_at = omega (arith, r.write_at);
      },
      ap (λ n. queue (set p.buf p.write_pos x) pipe_buf_size p.read_pos n) count
          ∙ queue-set p.buf pipe_buf_size x p.count p.read_pos p.write_pos
              (omega (arith, r.storage)) r.read_in h r.write_at,
    )

pipe_push-count : (p : Pipe) (x n : ℕ) → (pipe_push p x).count + n ≡ p.count + suc n
unfolding pipe_push
pipe_push-count p x n = omega arith

pipe_push-readers : (p : Pipe) (x : ℕ) → (pipe_push p x).readers ≡ p.readers
unfolding pipe_push
pipe_push-readers p x = refl

pipe_pop-count : (p : Pipe) → (pipe_pop p).count ≡ p.count - 1
unfolding pipe_pop
pipe_pop-count p = refl

-- `pipe_fill` puts the first bytes behind those that wait, and leaves the others, none unless the
-- buffer is full.
pub pipe_fill_lem :
    (p : Pipe) (xs : List ℕ)
    → IsRing p
    → let (p', rest) = pipe_fill p xs in
      IsRing p'
      × (unread p' ≡ unread p ++ take (length xs - length rest) xs)
      × (length rest ≤ length xs)
      × (0 < length rest → p'.count ≡ pipe_buf_size)
      × (p'.count + length rest ≡ p.count + length xs)
      × (p'.readers ≡ p.readers)
unfolding pipe_fill
pipe_fill_lem p [] r = (r, rw append-nil refl, omega arith, (λ h. absurd (omega arith)), refl, refl)
pipe_fill_lem p (x ∷ xs) r = elim (Bool-cases (p.count == pipe_buf_size)) [
  | inl full ↦
      let none_taken : suc (length xs) - suc (length xs) ≡ 0 = omega arith in
      rw (full, none_taken) (r, rw append-nil refl, omega arith, (λ h. ground arith), refl, refl)
  | inr room ↦
      let (r', e) = pipe_push_lem p x r (ground (arith, r.count_in)) in
      let (r'', e', le, m, n, k) = pipe_fill_lem (pipe_push p x) xs r' in
      let rest = (pipe_fill (pipe_push p x) xs).1 in
      let taken : suc (length xs) - length rest ≡ suc (length xs - length rest) =
        omega (arith, le) in
      rw (room, taken)
        (
          r'',
          e' ∙ rw (e, append_assoc) refl,
          omega (arith, le),
          m,
          n ∙ pipe_push-count p x (length xs),
          k ∙ pipe_push-readers p x,
        )
]

pipe_pop_lem :
    (p : Pipe)
    → IsRing p
    → 0 < p.count
    → IsRing (pipe_pop p) × (unread p ≡ get_or p.buf p.read_pos 0 ∷ unread (pipe_pop p))
unfolding pipe_pop unread
pipe_pop_lem p r h = (
  record {
    storage = r.storage;
    read_in = omega arith;
    count_in = omega (arith, r.count_in);
    write_at = omega (arith, r.count_in, r.write_at);
  },
  queue_pos p.buf pipe_buf_size p.read_pos p.count (omega arith),
)

-- `pipe_take` takes `n` bytes, if so many wait, from the front.
pub pipe_take_lem :
    (n : ℕ) (p : Pipe)
    → IsRing p
    → n ≤ p.count
    → let (xs, p') = pipe_take n p in IsRing p' × (xs ++ unread p' ≡ unread p) × (length xs ≡ n)
unfolding pipe_take
pipe_take_lem zero p r h = (r, refl, refl)
pipe_take_lem (suc n) p r h =
    let (r', e) = pipe_pop_lem p r (omega arith) in
    let (r'', e', m) = pipe_take_lem n (pipe_pop p) r' (omega (arith, pipe_pop-count p)) in
    (r'', ap (◌∷◌ (get_or p.buf p.read_pos 0)) e' ∙ sym e, ap suc m)
