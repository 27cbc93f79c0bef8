-- ===== src/Net/Tcp/Edges.antt =====
-- The state changes that a segment can cause, each with what the segment must carry.
use plant_os.Base.{
  ℕ, ◌≡◌, refl, ◌∙◌, ap, inl, inr, true, ◌&&◌, List, [], take, Bool-cases, &&-eq-true, ==_iff, ◌==◌,
  arith,
}
use plant_os.Net.Tcp.{
  TcpState, closed, listen, syn_sent, syn_received, established, fin_wait_1, fin_wait_2, close_wait,
  closing, last_ack, time_wait, Conn, World, fin, syn, rst, ack_bit, has, send_segment, free_conn,
  rxbuf_write,
}
use plant_os.Net.Tcp.Buffer.{rxbuf_write-rest}
use plant_os.Net.Tcp.Rx.{
  Header, accepted, take_data, rx_ack, rx_data, rx_fin_established, rx_established, rx_syn_sent,
  rx_syn_received,
}
use plant_os.Net.Tcp.Handler.{
  fin_wait_1_ack, fin_wait_1_fin, rx_fin_wait_1, rx_fin_wait_2, rx_closing, rx_last_ack,
  rx_close_wait, rx_time_wait, by_state, rx_conn,
}
use plant_os.Net.Tcp.Deliver.{send_segment-rest}

-- The ACK bit is set and the number is that of the next byte to send.
pub record AcksAll (c : Conn) (h : Header) : Type 0 where
  pub bit : has h.flags ack_bit ≡ true
  pub number : h.ack ≡ c.snd_nxt

abbrev pub Carries : Header → ℕ → Type 0
Carries h bit = has h.flags bit ≡ true

pub data Edge (c : Conn) (h : Header) : TcpState → TcpState → Type 0 where
  stay : {s : TcpState} → Edge c h s s
  reset : {s : TcpState} → Carries h rst → Edge c h s closed
  syn_acked : Carries h syn → AcksAll c h → Edge c h syn_sent established
  crossed_syn : Carries h syn → Edge c h syn_sent syn_received
  handshake_done : AcksAll c h → Edge c h syn_received established
  peer_closes : Carries h fin → Edge c h established close_wait
  fin_acked : AcksAll c h → Edge c h fin_wait_1 fin_wait_2
  fin_fin_acked : AcksAll c h → Carries h fin → Edge c h fin_wait_1 time_wait
  crossed_fin : Carries h fin → Edge c h fin_wait_1 closing
  peer_done : Carries h fin → Edge c h fin_wait_2 time_wait
  crossed_fin_acked : AcksAll c h → Edge c h closing time_wait
  last_fin_acked : AcksAll c h → Edge c h last_ack closed

acks_all :
    (c : Conn) (h : Header) → (has h.flags ack_bit && h.ack == c.snd_nxt) ≡ true → AcksAll c h
acks_all c h e =
    let (a, b) = &&-eq-true (has h.flags ack_bit) (h.ack == c.snd_nxt) e in
    record { bit = a; number = (==_iff h.ack c.snd_nxt).0 b }

-- The edge to a state that is given by an equation.
to {ℓ} : {A : Type ℓ} → (P : A → Type 0) → {a b : A} → b ≡ a → P a → P b
to P e p = rw e p

rx_syn_sent-Edge :
    (c : Conn) (h : Header) (w : World)
    → c.state ≡ syn_sent
    → Edge c h syn_sent (rx_syn_sent c h w).0.state
unfolding rx_syn_sent
rx_syn_sent-Edge c h w s = elim (Bool-cases (has h.flags syn && has h.flags ack_bit)) [
  | inl both ↦ elim (Bool-cases (h.ack == c.snd_nxt)) [
    | inl num ↦
        rw (both, num)
          (to (Edge c h syn_sent) (send_segment-rest _ _ _ _ _).2 (
            syn_acked (&&-eq-true (has h.flags syn) _ both).0 (record {
              bit = (&&-eq-true (has h.flags syn) _ both).1;
              number = (==_iff h.ack c.snd_nxt).0 num;
            })))
    | inr num ↦ rw (both, num) (to (Edge c h syn_sent) s stay)
  ]
  | inr not_both ↦ elim (Bool-cases (has h.flags syn)) [
    | inl one ↦
        rw (not_both, one)
          (to (Edge c h syn_sent) (send_segment-rest _ _ _ _ _).2 (crossed_syn one))
    | inr zero ↦ rw (not_both, zero) (to (Edge c h syn_sent) s stay)
  ]
]

rx_syn_received-Edge :
    (c : Conn) (h : Header)
    → c.state ≡ syn_received
    → Edge c h syn_received (rx_syn_received c h).state
unfolding rx_syn_received
rx_syn_received-Edge c h s = elim (Bool-cases (has h.flags ack_bit && h.ack == c.snd_nxt)) [
  | inl a ↦ rw a (handshake_done (acks_all c h a))
  | inr a ↦ rw a (to (Edge c h syn_received) s stay)
]

rxbuf_write-state : (c : Conn) (xs : List ℕ) → (rxbuf_write c xs).state ≡ c.state
rxbuf_write-state c xs = ap (λ (d : Conn). d.state) (rxbuf_write-rest c xs)

take_data-state : (c : Conn) (h : Header) → (take_data c h).state ≡ c.state
unfolding take_data
take_data-state c h = ground (arith, rxbuf_write-state c (take (accepted c h) h.payload))

rx_ack-state : (c : Conn) (h : Header) → (rx_ack c h).state ≡ c.state
unfolding rx_ack
rx_ack-state c h = ground arith

rx_data-state : (c : Conn) (h : Header) (w : World) → (rx_data c h w).0.state ≡ c.state
unfolding rx_data
rx_data-state c h w = ground (
  arith,
  take_data-state c h,
  send_segment-rest (take_data c h) ack_bit (take_data c h).snd_nxt [] w,
)

rx_established-Edge :
    (c : Conn) (h : Header) (w : World)
    → c.state ≡ established
    → Edge c h established (rx_established c h w).0.state
unfolding rx_established rx_fin_established
rx_established-Edge c h w s = elim (Bool-cases (has h.flags fin)) [
  | inl f ↦ rw f (to (Edge c h established) (send_segment-rest _ _ _ _ _).2 (peer_closes f))
  | inr f ↦
      rw f (to (Edge c h established) (rx_data-state (rx_ack c h) h w ∙ rx_ack-state c h ∙ s) stay)
]

-- The two tests of FIN_WAIT_1, one after the other.
fin_wait_1-Edge :
    (c : Conn) (h : Header) (w : World)
    → c.state ≡ fin_wait_1
    → let (c₁, w₁) = fin_wait_1_ack c h w in Edge c h fin_wait_1 (fin_wait_1_fin c₁ h w₁).0.state
unfolding fin_wait_1_ack fin_wait_1_fin send_segment
fin_wait_1-Edge c h w s = elim (Bool-cases (has h.flags ack_bit && h.ack == c.snd_nxt)) [
  | inl a ↦ elim (Bool-cases (has h.flags fin)) [
    | inl f ↦ to (Edge c h fin_wait_1) (ground arith) (fin_fin_acked (acks_all c h a) f)
    | inr f ↦ to (Edge c h fin_wait_1) (ground arith) (fin_acked (acks_all c h a))
  ]
  | inr a ↦ elim (Bool-cases (has h.flags fin)) [
    | inl f ↦ to (Edge c h fin_wait_1) (ground arith) (crossed_fin f)
    | inr f ↦ to (Edge c h fin_wait_1) {b = _} (ground arith) stay
  ]
]

rx_fin_wait_2-Edge :
    (c : Conn) (h : Header) (w : World)
    → c.state ≡ fin_wait_2
    → Edge c h fin_wait_2 (rx_fin_wait_2 c h w).0.state
unfolding rx_fin_wait_2
rx_fin_wait_2-Edge c h w s = elim (Bool-cases (has h.flags fin)) [
  | inl f ↦ rw f (to (Edge c h fin_wait_2) (send_segment-rest _ _ _ _ _).2 (peer_done f))
  | inr f ↦ rw f (to (Edge c h fin_wait_2) (take_data-state c h ∙ s) stay)
]

rx_closing-Edge :
    (c : Conn) (h : Header) (w : World)
    → c.state ≡ closing
    → Edge c h closing (rx_closing c h w).state
unfolding rx_closing
rx_closing-Edge c h w s = elim (Bool-cases (has h.flags ack_bit && h.ack == c.snd_nxt)) [
  | inl a ↦ rw a (crossed_fin_acked (acks_all c h a))
  | inr a ↦ rw a (to (Edge c h closing) s stay)
]

rx_last_ack-Edge :
    (c : Conn) (h : Header) → c.state ≡ last_ack → Edge c h last_ack (rx_last_ack c h).state
unfolding rx_last_ack free_conn
rx_last_ack-Edge c h s = elim (Bool-cases (has h.flags ack_bit && h.ack == c.snd_nxt)) [
  | inl a ↦ rw a (last_fin_acked (acks_all c h a))
  | inr a ↦ rw a (to (Edge c h last_ack) s stay)
]

rx_close_wait-state : (c : Conn) (h : Header) → (rx_close_wait c h).state ≡ c.state
unfolding rx_close_wait
rx_close_wait-state c h = ground arith

rx_time_wait-state : (c : Conn) (h : Header) (w : World) → (rx_time_wait c h w).0.state ≡ c.state
unfolding rx_time_wait
rx_time_wait-state c h w = ground (arith, send_segment-rest c ack_bit c.snd_nxt [] w)

by_state-Edge :
    (s : TcpState) (c : Conn) (h : Header) (w : World)
    → c.state ≡ s
    → Edge c h s (by_state s c h w).0.state
unfolding by_state rx_fin_wait_1
by_state-Edge closed c h w e = to (Edge c h closed) e stay
by_state-Edge listen c h w e = to (Edge c h listen) e stay
by_state-Edge syn_sent c h w e = rx_syn_sent-Edge c h w e
by_state-Edge syn_received c h w e = rx_syn_received-Edge c h e
by_state-Edge established c h w e = rx_established-Edge c h w e
by_state-Edge fin_wait_1 c h w e =
    to (Edge c h fin_wait_1) (take_data-state _ h) (fin_wait_1-Edge c h w e)
by_state-Edge fin_wait_2 c h w e = rx_fin_wait_2-Edge c h w e
by_state-Edge close_wait c h w e = to (Edge c h close_wait) (rx_close_wait-state c h ∙ e) stay
by_state-Edge closing c h w e = rx_closing-Edge c h w e
by_state-Edge last_ack c h w e = rx_last_ack-Edge c h e
by_state-Edge time_wait c h w e = to (Edge c h time_wait) (rx_time_wait-state c h w ∙ e) stay

-- Whatever arrives, a connection moves along one of the edges, and only if the segment carries
-- what the edge asks for.
pub rx_conn-Edge : (c : Conn) (h : Header) (w : World) → Edge c h c.state (rx_conn c h w).0.state
unfolding rx_conn
rx_conn-Edge c h w = elim (Bool-cases (has h.flags rst)) [
  | inl r ↦ rw r (reset r)
  | inr r ↦ rw r (by_state-Edge c.state c h w refl)
]
