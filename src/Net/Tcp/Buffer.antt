-- ===== src/Net/Tcp/Buffer.antt =====
-- The receive buffer of a connection as a queue of bytes: `rxbuf_write` and `rxbuf_read`.
use plant_os.Base.{
  ℕ, zero, suc, ◌+◌, ◌-◌, ◌%◌, ◌^◌, ◌≤◌, ◌<◌, min, ◌≡◌, refl, sym, ◌∙◌, ap, inl, inr, List, [], ◌∷◌,
  ◌++◌, length, length-set, get_or, set, take, queue, length-queue, queue_pos, queue-set, ltb,
  take-nil, take_pos, Bool-cases, arith,
}
use mathlib.Core.List.{append-nil, append_assoc}
use plant_os.Net.Tcp.{Conn, rxbuf_size, rxbuf_push, rxbuf_write, rxbuf_pop, rxbuf_read}

-- The two positions and the count agree, and stay inside the buffer.
pub record IsRing (c : Conn) : Type 0 where
  pub storage : length c.rxbuf ≡ rxbuf_size
  pub tail_in : c.rx_tail < rxbuf_size
  pub count_in : c.rx_count ≤ rxbuf_size
  pub head_at : c.rx_head ≡ (c.rx_tail + c.rx_count) % rxbuf_size

-- The bytes received and not yet read, oldest first.
pub unread : Conn → List ℕ
unread c = queue c.rxbuf rxbuf_size c.rx_tail c.rx_count

pub length-unread : (c : Conn) → length (unread c) ≡ c.rx_count
unfolding unread
length-unread c = length-queue c.rxbuf rxbuf_size c.rx_tail c.rx_count

-- The four fields of the buffer.
pub record SameBuf (c c' : Conn) : Type 0 where
  pub rxbuf : c'.rxbuf ≡ c.rxbuf
  pub rx_head : c'.rx_head ≡ c.rx_head
  pub rx_tail : c'.rx_tail ≡ c.rx_tail
  pub rx_count : c'.rx_count ≡ c.rx_count

pub IsRing-same : (c c' : Conn) → SameBuf c c' → IsRing c → IsRing c'
IsRing-same c c' e r = record {
  storage = ap length e.rxbuf ∙ r.storage;
  tail_in = ground (arith, r.tail_in);
  count_in = ground (arith, r.count_in);
  head_at = ground (arith, r.head_at);
}

pub unread-same : (c c' : Conn) → SameBuf c c' → unread c' ≡ unread c
unfolding unread
unread-same c c' e = rw (e.rxbuf, e.rx_tail, e.rx_count)

rxbuf_push_lem :
    (c : Conn) (x : ℕ)
    → IsRing c
    → c.rx_count < rxbuf_size
    → IsRing (rxbuf_push c x) × (unread (rxbuf_push c x) ≡ unread c ++ x ∷ [])
unfolding rxbuf_push unread
rxbuf_push_lem c x r h = (
  record {
    storage = length-set c.rxbuf c.rx_head x ∙ r.storage;
    tail_in = r.tail_in;
    count_in = omega arith;
    head_at = omega (arith, r.head_at);
  },
  ap (λ n. queue (set c.rxbuf c.rx_head x) rxbuf_size c.rx_tail n) count
      ∙ queue-set c.rxbuf rxbuf_size x c.rx_count c.rx_tail c.rx_head (omega (arith, r.storage))
          r.tail_in h r.head_at,
)
  where
    count : (c.rx_count + 1) % 2 ^ 16 ≡ suc c.rx_count
    count = omega arith

unread-step :
    (c : Conn) (x : ℕ) (xs : List ℕ)
    → c.rx_count < rxbuf_size
    → unread (rxbuf_push c x) ≡ unread c ++ x ∷ []
    → unread (rxbuf_push c x) ++ take (rxbuf_size - (rxbuf_push c x).rx_count) xs
      ≡ unread c ++ take (rxbuf_size - c.rx_count) (x ∷ xs)
unfolding rxbuf_push
unread-step c x xs h e =
    rw (e, append_assoc, take_pos (rxbuf_size - c.rx_count) x xs (omega arith))
      (ap (λ n. unread c ++ x ∷ take n xs) less)
  where
    less : rxbuf_size - (c.rx_count + 1) % 2 ^ 16 ≡ rxbuf_size - c.rx_count - 1
    less = omega arith

-- `rxbuf_write` stores as many bytes as there is room for, behind those that wait.
pub rxbuf_write_lem :
    (c : Conn) (xs : List ℕ)
    → IsRing c
    → IsRing (rxbuf_write c xs)
      × (unread (rxbuf_write c xs) ≡ unread c ++ take (rxbuf_size - c.rx_count) xs)
unfolding rxbuf_write
rxbuf_write_lem c [] r = (r, rw (take-nil, append-nil))
rxbuf_write_lem c (x ∷ xs) r = elim (Bool-cases (ltb c.rx_count rxbuf_size)) [
  | inl room ↦
      let (r', e) = rxbuf_push_lem c x r (ground arith) in
      let (r'', e') = rxbuf_write_lem (rxbuf_push c x) xs r' in
      rw room (r'', e' ∙ unread-step c x xs (ground arith) e)
  | inr full ↦
      let none_left : rxbuf_size - c.rx_count ≡ 0 = ground arith in
      rw (full, none_left) (r, rw append-nil)
]

-- Only the buffer, its write position and its count change.
pub rxbuf_write-rest :
    (c : Conn) (xs : List ℕ)
    → rxbuf_write c xs ≡ record c {
      rxbuf = (rxbuf_write c xs).rxbuf;
      rx_head = (rxbuf_write c xs).rx_head;
      rx_count = (rxbuf_write c xs).rx_count;
    }
unfolding rxbuf_write rxbuf_push
rxbuf_write-rest c [] = refl
rxbuf_write-rest c (x ∷ xs) = elim (Bool-cases (ltb c.rx_count rxbuf_size)) [
  | inl room ↦ rw room (rxbuf_write-rest (rxbuf_push c x) xs)
  | inr full ↦ rw full
]

rxbuf_pop_lem :
    (c : Conn)
    → IsRing c
    → 0 < c.rx_count
    → IsRing (rxbuf_pop c)
      × (unread c ≡ get_or c.rxbuf c.rx_tail 0 ∷ unread (rxbuf_pop c))
      × ((rxbuf_pop c).rx_count + 1 ≡ c.rx_count)
unfolding rxbuf_pop unread
rxbuf_pop_lem c r h = (
  record {
    storage = r.storage;
    tail_in = omega arith;
    count_in = omega (arith, r.count_in);
    head_at = omega (arith, r.count_in, r.head_at);
  },
  queue_pos c.rxbuf rxbuf_size c.rx_tail c.rx_count (omega arith)
      ∙ ap
          (λ n.
            get_or c.rxbuf c.rx_tail 0 ∷ queue c.rxbuf rxbuf_size ((c.rx_tail + 1) % rxbuf_size) n)
          count,
  omega (arith, r.count_in),
)
  where
    count : c.rx_count - 1 ≡ (c.rx_count + 2 ^ 16 - 1) % 2 ^ 16
    count = omega (arith, r.count_in)

-- `rxbuf_read` takes at most `len` bytes, those that have waited longest, and leaves the others.
pub rxbuf_read_lem :
    (c : Conn) (len : ℕ)
    → IsRing c
    → let (xs, c') = rxbuf_read c len in
      IsRing c' × (xs ++ unread c' ≡ unread c) × (length xs ≡ min len c.rx_count)
unfolding rxbuf_read
rxbuf_read_lem c zero r = (r, refl, omega arith)
rxbuf_read_lem c (suc len) r = elim (Bool-cases (ltb 0 c.rx_count)) [
  | inl waiting ↦
      let (r', e, n) = rxbuf_pop_lem c r (ground arith) in
      let (r'', e', n') = rxbuf_read_lem (rxbuf_pop c) len r' in
      rw waiting (r'', ap (◌∷◌ (get_or c.rxbuf c.rx_tail 0)) e' ∙ sym e, omega (arith, n, n'))
  | inr empty ↦ rw empty (r, refl, ground arith)
]
