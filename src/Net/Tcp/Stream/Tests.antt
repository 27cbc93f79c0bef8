-- ===== src/Net/Tcp/Stream/Tests.antt =====
-- Runs of `tcp_send`, `tcp_recv` and an ACK on a fresh connection.
use plant_os.Base.{ℕ, ◌<◌, ◌≤◌, ◌≡◌, refl, ◌⊎◌, true, [], ◌∷◌, length-replicate, drop, arith}
use plant_os.Net.Tcp.{
  established, Conn, World, blank, rxbuf_size, txbuf_size, ack_bit, has, sub32, rto_init,
}
use plant_os.Net.Tcp.Buffer.{IsRing}
use plant_os.Net.Tcp.Rx.{Header, rx_ack}
use plant_os.Net.Tcp.Stream.{send_loop, recv_look}
use plant_os.Net.Tcp.Stream.Window.{IsWindow, pending, rx_ack_lem}
use plant_os.Net.Tcp.Stream.Send.{IsSent, send_loop-IsSent}
use plant_os.Net.Tcp.Stream.Recv.{IsLook, recv_look-IsLook}

abbrev peer : Conn
peer = record blank { used = true; state = established; snd_una = 50; snd_nxt = 50; rto = 200 }

abbrev quiet : World
quiet = record { now = 1000; netbufs = true ∷ true ∷ []; sent = [] }

peer-IsWindow : IsWindow peer
unfolding blank
peer-IsWindow = record {
  storage = length-replicate {A = ℕ} txbuf_size 0;
  tx_in = omega arith;
  una_in = omega arith;
  nxt_at = refl;
}

peer-IsRing : IsRing peer
unfolding blank
peer-IsRing = record {
  storage = length-replicate {A = ℕ} rxbuf_size 0;
  tail_in = omega arith;
  count_in = omega arith;
  head_at = refl;
}

send_loop-IsSent_example : IsSent peer (7 ∷ 8 ∷ []) quiet (send_loop 3 peer (7 ∷ 8 ∷ []) quiet)
send_loop-IsSent_example = send_loop-IsSent 3 peer (7 ∷ 8 ∷ []) quiet peer-IsWindow (omega arith)

recv_look-IsLook_example : IsLook peer 10 (recv_look peer 10 quiet)
recv_look-IsLook_example = recv_look-IsLook peer 10 quiet peer-IsRing

-- Five bytes under way, of which the ACK covers two.
abbrev sender : Conn
sender = record peer { tx_len = 5; snd_nxt = 55 }

sender-IsWindow : IsWindow sender
unfolding blank
sender-IsWindow = record {
  storage = length-replicate {A = ℕ} txbuf_size 0;
  tx_in = omega arith;
  una_in = omega arith;
  nxt_at = refl;
}

abbrev two_more : Header
two_more = record {
  src_port = 80;
  dst_port = 49152;
  seq = 100;
  ack = 52;
  flags = 0x10;
  window = 512;
  hdr_len = 20;
  payload_len = 0;
  payload = [];
}

is_ack : has 0x10 ack_bit ≡ true
unfolding has
is_ack = refl

rx_ack_lem_example :
    let c' = rx_ack sender two_more in
    let n = sub32 52 50 in
    IsWindow c'
    × (n ≤ 5 → (c'.snd_una ≡ 52) × (pending c' ≡ drop n (pending sender)))
    × (0 < n → n ≤ 5 → (c'.snd_wnd ≡ 512) × (c'.retx_count ≡ 0) × (c'.rto ≡ rto_init))
    × ((n ≡ 0) ⊎ (5 < n) → c' ≡ sender)
rx_ack_lem_example =
    rx_ack_lem sender two_more sender-IsWindow (omega arith) is_ack (λ e. absurd (omega (arith, e)))
