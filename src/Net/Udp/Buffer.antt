-- ===== src/Net/Udp/Buffer.antt =====
-- The ring buffer of a UDP socket as a queue of bytes.
use plant_os.Base.{
  ℕ, zero, suc, ◌+◌, ◌-◌, ◌%◌, ◌^◌, ◌≤◌, ◌<◌, min, ◌≡◌, refl, sym, ◌∙◌, ap, inl, inr, List, [], ◌∷◌,
  ◌++◌, length, length-set, get_or, set, take, queue, length-queue, queue_pos, queue-set, ltb,
  take-nil, take_pos, Bool-cases, arith,
}
use mathlib.Core.List.{append-nil, append_assoc}
use plant_os.Net.Udp.{UdpSocket, udp_rxbuf_size, udp_push, udp_write, udp_pop, udp_read}

-- The two positions and the count agree, and stay inside the buffer.
pub record IsRing (s : UdpSocket) : Type 0 where
  pub storage : length s.rxbuf ≡ udp_rxbuf_size
  pub tail_in : s.rx_tail < udp_rxbuf_size
  pub count_in : s.rx_count ≤ udp_rxbuf_size
  pub head_at : s.rx_head ≡ (s.rx_tail + s.rx_count) % udp_rxbuf_size

-- The bytes received and not yet read, oldest first.
unfoldable pub unread : UdpSocket → List ℕ
unread s = queue s.rxbuf udp_rxbuf_size s.rx_tail s.rx_count

pub length-unread : (s : UdpSocket) → length (unread s) ≡ s.rx_count
unfolding unread
length-unread s = length-queue s.rxbuf udp_rxbuf_size s.rx_tail s.rx_count

udp_push_lem :
    (s : UdpSocket) (x : ℕ)
    → IsRing s
    → s.rx_count < udp_rxbuf_size
    → IsRing (udp_push s x)
      × (unread (udp_push s x) ≡ unread s ++ x ∷ [])
      × ((udp_push s x).rx_count ≡ suc s.rx_count)
unfolding udp_push unread
udp_push_lem s x r h =
    let count : (s.rx_count + 1) % 2 ^ 16 ≡ suc s.rx_count = omega arith in
    (
      record {
        storage = length-set s.rxbuf s.rx_head x ∙ r.storage;
        tail_in = r.tail_in;
        count_in = omega arith;
        head_at = omega (arith, r.head_at);
      },
      ap (λ n. queue (set s.rxbuf s.rx_head x) udp_rxbuf_size s.rx_tail n) count
          ∙ queue-set s.rxbuf udp_rxbuf_size x s.rx_count s.rx_tail s.rx_head
              (omega (arith, r.storage)) r.tail_in h r.head_at,
      count,
    )

-- `udp_write` stores as many bytes as there is room for, behind those that wait.
pub udp_write_lem :
    (s : UdpSocket) (xs : List ℕ)
    → IsRing s
    → IsRing (udp_write s xs)
      × (unread (udp_write s xs) ≡ unread s ++ take (udp_rxbuf_size - s.rx_count) xs)
unfolding udp_write
udp_write_lem s [] r = (r, rw (take-nil, append-nil) refl)
udp_write_lem s (x ∷ xs) r = elim (Bool-cases (ltb s.rx_count udp_rxbuf_size)) [
  | inl room ↦
      let (r', e, n) = udp_push_lem s x r (ground arith) in
      let (r'', e') = udp_write_lem (udp_push s x) xs r' in
      let less : udp_rxbuf_size - (udp_push s x).rx_count ≡ udp_rxbuf_size - s.rx_count - 1 =
        omega (arith, n) in
      rw room (
        r'',
        e'
            ∙ rw (e, append_assoc, take_pos (udp_rxbuf_size - s.rx_count) x xs (ground arith), less)
                refl,
      )
  | inr full ↦
      let none_left : udp_rxbuf_size - s.rx_count ≡ 0 = ground arith in
      rw (full, none_left) (r, rw append-nil refl)
]

udp_pop_lem :
    (s : UdpSocket)
    → IsRing s
    → 0 < s.rx_count
    → IsRing (udp_pop s) × (unread s ≡ get_or s.rxbuf s.rx_tail 0 ∷ unread (udp_pop s))
unfolding udp_pop unread
udp_pop_lem s r h = (
  record {
    storage = r.storage;
    tail_in = omega arith;
    count_in = omega (arith, r.count_in);
    head_at = omega (arith, r.count_in, r.head_at);
  },
  queue_pos s.rxbuf udp_rxbuf_size s.rx_tail s.rx_count (omega arith),
)

udp_pop-count : (s : UdpSocket) → (udp_pop s).rx_count ≡ s.rx_count - 1
unfolding udp_pop
udp_pop-count s = refl

-- `udp_read` takes at most `n` bytes, those that have waited longest, and leaves the others.
pub udp_read_lem :
    (n : ℕ) (s : UdpSocket)
    → IsRing s
    → let (xs, s') = udp_read n s in
      IsRing s' × (xs ++ unread s' ≡ unread s) × (length xs ≡ min n s.rx_count)
unfolding udp_read
udp_read_lem zero s r = (r, refl, omega arith)
udp_read_lem (suc n) s r = elim (Bool-cases (ltb 0 s.rx_count)) [
  | inl waiting ↦
      let (r', e) = udp_pop_lem s r (ground arith) in
      let (r'', e', m) = udp_read_lem n (udp_pop s) r' in
      let less : (udp_pop s).rx_count ≡ s.rx_count - 1 = udp_pop-count s in
      let some_left : 0 < s.rx_count = ground arith in
      rw waiting (r'', ap (◌∷◌ (get_or s.rxbuf s.rx_tail 0)) e' ∙ sym e, omega (arith, m, less))
  | inr empty ↦ rw empty (r, refl, ground arith)
]
