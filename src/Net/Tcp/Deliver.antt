-- ===== src/Net/Tcp/Deliver.antt =====
-- Which bytes a segment adds to the receive buffer, and how `rcv_nxt` follows them.
use plant_os.Base.{
  ℕ, zero, suc, ◌+◌, ◌-◌, ◌^◌, ◌<◌, ◌≤◌, min, ◌≡◌, refl, sym, ◌∙◌, ap, ◌⊎◌, inl, inr, false, ◌&&◌,
  List, [], ◌++◌, length, length-take, take, take_all, take-min, ltb, ◌==◌, if◌then◌else◌,
  Bool-cases, arith,
}
use mathlib.Core.List.{append-nil}
use plant_os.Net.Tcp.{
  TcpState, established, fin_wait_1, fin_wait_2, Conn, World, rxbuf_size, fin, rst, ack_bit, has,
  add32, rxbuf_free, rxbuf_write, send_segment,
}
use plant_os.Net.Tcp.Buffer.{IsRing, SameBuf, IsRing-same, unread-same, unread, rxbuf_write_lem}
use plant_os.Net.Tcp.Rx.{
  Packet, Header, slice, tcp_header, in_order, accepted, take_data, rx_ack, rx_data,
  rx_fin_established, rx_established,
}
use plant_os.Net.Tcp.Handler.{
  fin_wait_1_ack, fin_wait_1_fin, rx_fin_wait_1, rx_fin_wait_2, by_state, rx_conn,
}

-- The bytes that a segment adds: as much of the payload as fits, if it is the next in order.
unfoldable pub delivered : Conn → Header → List ℕ
delivered c h =
    if ltb 0 h.payload_len && h.seq == c.rcv_nxt
    then take (rxbuf_size - c.rx_count) h.payload
    else []

-- The receive side of `c'` is that of `c` with the bytes `xs` behind, and counts them.
pub record Adds (c : Conn) (xs : List ℕ) (c' : Conn) : Type 0 where
  pub ring : IsRing c'
  pub bytes : unread c' ≡ unread c ++ xs
  pub counted : c'.rcv_nxt ≡ add32 c.rcv_nxt (length xs)

Adds-then :
    (c : Conn) (xs : List ℕ) (c' c'' : Conn)
    → Adds c xs c'
    → SameBuf c' c''
    → c''.rcv_nxt ≡ c'.rcv_nxt
    → Adds c xs c''
Adds-then c xs c' c'' a e n = record {
  ring = IsRing-same c' c'' e a.ring;
  bytes = unread-same c' c'' e ∙ a.bytes;
  counted = n ∙ a.counted;
}

length-slice : (byte : ℕ → ℕ) (i n : ℕ) → length (slice byte i n) ≡ n
unfolding slice
length-slice byte i zero = refl
length-slice byte i (suc n) = ap suc (length-slice byte (i + 1) n)

-- The payload that the handler reads has the length that it computes.
pub length-payload : (p : Packet) → length (tcp_header p).payload ≡ (tcp_header p).payload_len
unfolding tcp_header
length-payload p = length-slice _ _ _

accepted-eq-min :
    (c : Conn) (h : Header) → IsRing c → accepted c h ≡ min h.payload_len (rxbuf_size - c.rx_count)
unfolding accepted rxbuf_free
accepted-eq-min c h r = ground (arith, r.count_in)

take-accepted :
    (c : Conn) (h : Header)
    → IsRing c
    → length h.payload ≡ h.payload_len
    → take (accepted c h) h.payload ≡ take (rxbuf_size - c.rx_count) h.payload
take-accepted c h r len = rw (accepted-eq-min c h r, ← len) (take-min _ _)

-- What `rxbuf_write` and the two assignments behind it do with the accepted part.
stored-Adds :
    (c c' : Conn) (h : Header)
    → IsRing c
    → length h.payload ≡ h.payload_len
    → SameBuf (rxbuf_write c (take (accepted c h) h.payload)) c'
    → c'.rcv_nxt ≡ add32 c.rcv_nxt (accepted c h)
    → Adds c (take (rxbuf_size - c.rx_count) h.payload) c'
stored-Adds c c' h r len e n =
    let xs = take (accepted c h) h.payload in
    let (r', b) = rxbuf_write_lem c xs r in
    let fits : length xs ≤ rxbuf_size - c.rx_count =
      omega (arith, length-take (accepted c h) h.payload, accepted-eq-min c h r) in
    let bytes : take (rxbuf_size - c.rx_count) xs ≡ take (rxbuf_size - c.rx_count) h.payload =
      take_all _ xs fits ∙ take-accepted c h r len in
    let counted : accepted c h ≡ length (take (rxbuf_size - c.rx_count) h.payload) =
      omega (arith, length-take (rxbuf_size - c.rx_count) h.payload, accepted-eq-min c h r, len) in
    record {
      ring = IsRing-same (rxbuf_write c xs) c' e r';
      bytes = unread-same (rxbuf_write c xs) c' e ∙ b ∙ ap (λ ys. unread c ++ ys) bytes;
      counted = n ∙ ap (λ k. add32 c.rcv_nxt k) counted;
    }

take_data-Adds :
    (c : Conn) (h : Header)
    → IsRing c
    → c.rcv_nxt < 2 ^ 32
    → length h.payload ≡ h.payload_len
    → Adds c (delivered c h) (take_data c h)
unfolding delivered take_data in_order
take_data-Adds c h r small len = elim (Bool-cases (ltb 0 h.payload_len && h.seq == c.rcv_nxt)) [
  | inl next ↦ elim (Bool-cases (ltb 0 (accepted c h))) [
    | inl room ↦
        rw (next, room)
          (stored-Adds c _ h r len
            (record { rxbuf = refl; rx_head = refl; rx_tail = refl; rx_count = refl }) refl)
    | inr full ↦
        let none_left : rxbuf_size - c.rx_count ≡ 0 = ground (arith, accepted-eq-min c h r) in
        rw (next, full, none_left)
          (record { ring = r; bytes = sym (append-nil _); counted = omega arith })
  ]
  | inr other ↦ rw other (record { ring = r; bytes = sym (append-nil _); counted = omega arith })
]

pub send_segment-rest :
    (c : Conn) (flags seq : ℕ) (xs : List ℕ) (w : World)
    → SameBuf c (send_segment c flags seq xs w).0
      × ((send_segment c flags seq xs w).0.rcv_nxt ≡ c.rcv_nxt)
      × ((send_segment c flags seq xs w).0.state ≡ c.state)
unfolding send_segment
send_segment-rest c flags seq xs w = ground arith

pub rx_ack-rest :
    (c : Conn) (h : Header) → SameBuf c (rx_ack c h) × ((rx_ack c h).rcv_nxt ≡ c.rcv_nxt)
unfolding rx_ack
rx_ack-rest c h = ground arith

Adds-from :
    (c c₁ c' : Conn) (h : Header)
    → SameBuf c c₁
    → c₁.rcv_nxt ≡ c.rcv_nxt
    → Adds c₁ (delivered c₁ h) c'
    → Adds c (delivered c h) c'
unfolding delivered
Adds-from c c₁ c' h e n a =
    let same : delivered c₁ h ≡ delivered c h = rw (n, e.rx_count) in
    record {
      ring = a.ring;
      bytes = rw (← same) (a.bytes ∙ ap (λ ys. ys ++ delivered c₁ h) (unread-same c c₁ e));
      counted = rw (← same) (a.counted ∙ ap (λ k. add32 k (length (delivered c₁ h))) n);
    }

skipped-Adds :
    (c : Conn) (h : Header)
    → IsRing c
    → c.rcv_nxt < 2 ^ 32
    → (ltb 0 h.payload_len && h.seq == c.rcv_nxt) ≡ false
    → Adds c (delivered c h) c
unfolding delivered
skipped-Adds c h r small other =
    rw other (record { ring = r; bytes = sym (append-nil _); counted = omega arith })

rx_data-Adds :
    (c : Conn) (h : Header) (w : World)
    → IsRing c
    → c.rcv_nxt < 2 ^ 32
    → length h.payload ≡ h.payload_len
    → Adds c (delivered c h) (rx_data c h w).0
unfolding rx_data in_order
rx_data-Adds c h w r small len = elim (Bool-cases (ltb 0 h.payload_len && h.seq == c.rcv_nxt)) [
  | inl next ↦
      let (e, n, _) = send_segment-rest (take_data c h) ack_bit (take_data c h).snd_nxt [] w in
      let a = take_data-Adds c h r small len in rw next (Adds-then c _ (take_data c h) _ a e n)
  | inr other ↦ rw other (skipped-Adds c h r small other)
]

fin_wait_1-rest :
    (c : Conn) (h : Header) (w : World)
    → has h.flags fin ≡ false
    → let c₁ = (fin_wait_1_ack c h w).0 in
      let c₂ = (fin_wait_1_fin c₁ h (fin_wait_1_ack c h w).1).0 in
      SameBuf c c₂ × (c₂.rcv_nxt ≡ c.rcv_nxt)
unfolding fin_wait_1_ack fin_wait_1_fin
fin_wait_1-rest c h w nf = ground arith

pub rx_conn-at :
    (c : Conn) (h : Header) (w : World) {s : TcpState}
    → has h.flags rst ≡ false
    → c.state ≡ s
    → rx_conn c h w ≡ by_state s c h w
unfolding rx_conn
rx_conn-at c h w nr e = rw nr (ap (λ s. by_state s c h w) e)

-- A segment with neither RST nor FIN, in a state that receives data, adds exactly the bytes of
-- `delivered` to the buffer, and `rcv_nxt` moves on by their number.
pub rx_conn-Adds :
    (c : Conn) (h : Header) (w : World)
    → IsRing c
    → c.rcv_nxt < 2 ^ 32
    → length h.payload ≡ h.payload_len
    → (c.state ≡ established) ⊎ (c.state ≡ fin_wait_1) ⊎ (c.state ≡ fin_wait_2)
    → has h.flags rst ≡ false
    → has h.flags fin ≡ false
    → Adds c (delivered c h) (rx_conn c h w).0
unfolding by_state rx_established rx_fin_wait_1 rx_fin_wait_2 rx_fin_established
rx_conn-Adds c h w r small len (inl s) nr nf =
    let (e, n) = rx_ack-rest c h in
    rw (rx_conn-at c h w nr s, nf)
      (Adds-from c (rx_ack c h) _ h e n
        (rx_data-Adds (rx_ack c h) h w (IsRing-same c _ e r) (omega (arith, n)) len))
rx_conn-Adds c h w r small len (inr (inl s)) nr nf =
    let (e, n) = fin_wait_1-rest c h w nf in
    rw (rx_conn-at c h w nr s)
      (Adds-from c _ _ h e n (take_data-Adds _ h (IsRing-same c _ e r) (omega (arith, n)) len))
rx_conn-Adds c h w r small len (inr (inr s)) nr nf =
    rw (rx_conn-at c h w nr s, nf) (take_data-Adds c h r small len)
