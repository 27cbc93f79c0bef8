-- ===== src/Net/Tcp/Tests.antt =====
-- Runs of the TCP handlers on concrete connections and segments.
use plant_os.Base.{ℕ, ◌≡◌, refl, inl, true, false, List, [], ◌∷◌, length-replicate, arith}
use plant_os.Net.Tcp.{
  closed, established, close_wait, syn_sent, Conn, World, blank, rxbuf_size, has, seq_lt,
  rxbuf_write, send_segment, netbuf_alloc,
}
use plant_os.Net.Tcp.Buffer.{IsRing, IsRing-same, unread}
use plant_os.Net.Tcp.Rx.{Header, past_fin}
use plant_os.Net.Tcp.Handler.{rx_conn}
use plant_os.Net.Tcp.Deliver.{delivered, Adds, rx_conn-Adds}
use plant_os.Net.Tcp.Edges.{Edge, rx_conn-Edge}
use plant_os.Net.Tcp.Fin.{rx_conn-early_fin}
use plant_os.Net.Tcp.Timer.{timer_conn, timer_state, retry, backoff}
use plant_os.Net.Tcp.Timer.Retries.{IsPaced, timer_conn-IsPaced, visits, AllDue, visits-give_up}
use plant_os.Net.Tcp.Timer.Leak.{tick, segment, history, IsStranded, rst_strands}

-- A connection that has received up to byte 100 and sent up to byte 50.
abbrev peer : Conn
peer = record blank {
  used = true;
  state = established;
  rcv_nxt = 100;
  snd_una = 50;
  snd_nxt = 50;
  rto = 200;
}

abbrev quiet : World
quiet = record { now = 1000; netbufs = true ∷ true ∷ []; sent = [] }

-- A segment with the flags and two bytes of payload at the sequence number.
abbrev seg : ℕ → ℕ → Header
seg flags at = record {
  src_port = 80;
  dst_port = 49152;
  seq = at;
  ack = 50;
  flags = flags;
  window = 512;
  hdr_len = 20;
  payload_len = 2;
  payload = 7 ∷ 8 ∷ [];
}

blank-IsRing : IsRing blank
unfolding blank
blank-IsRing = record {
  storage = length-replicate {A = ℕ} rxbuf_size 0;
  tail_in = omega arith;
  count_in = omega arith;
  head_at = refl;
}

peer-IsRing : IsRing peer
peer-IsRing =
    IsRing-same blank peer
      (record { rxbuf = refl; rx_head = refl; rx_tail = refl; rx_count = refl }) blank-IsRing

plain : has 0x10 0x04 ≡ false
unfolding has
plain = refl

no_fin : has 0x10 0x01 ≡ false
unfolding has
no_fin = refl

late_fin : (has 0x11 0x04 ≡ false) × (has 0x11 0x01 ≡ true)
unfolding has
late_fin = (refl, refl)

wraps : (seq_lt 0xffffffff 1 ≡ true) × (seq_lt 1 0xffffffff ≡ false)
unfolding seq_lt
wraps = (refl, refl)

abbrev filled : Conn
filled = rxbuf_write peer (7 ∷ 8 ∷ [])

rx_conn-Adds_example :
    Adds peer (delivered peer (seg 0x10 100)) (rx_conn peer (seg 0x10 100) quiet).0
rx_conn-Adds_example =
    rx_conn-Adds peer (seg 0x10 100) quiet peer-IsRing (omega arith) refl (inl refl) plain no_fin

next_delivered : delivered peer (seg 0x10 100) ≡ 7 ∷ 8 ∷ []
unfolding delivered blank
next_delivered = refl

rx_conn-Edge_example :
    Edge peer (seg 0x11 100) peer.state (rx_conn peer (seg 0x11 100) quiet).0.state
rx_conn-Edge_example = rx_conn-Edge peer (seg 0x11 100) quiet

rx_conn-early_fin_example :
    let c' = (rx_conn peer (seg 0x11 300) quiet).0 in
    (c'.state ≡ close_wait) × (c'.rcv_nxt ≡ past_fin (seg 0x11 300)) × (unread c' ≡ unread peer)
rx_conn-early_fin_example =
    rx_conn-early_fin peer (seg 0x11 300) quiet refl late_fin.0 late_fin.1
      (λ e. absurd (omega (arith, e)))

-- A SYN without an answer, after four tries.
abbrev caller : Conn
caller = record blank { used = true; state = syn_sent; rto = 600; retx_count = 4; retx_time = 0 }

timer_conn-IsPaced_example : IsPaced (timer_conn caller quiet).0
timer_conn-IsPaced_example =
    timer_conn-IsPaced caller quiet (record { rto_in = omega arith; count_in = omega arith })

-- Two visits, without a buffer to send with.
abbrev silence : List World
silence =
    record { now = 1000; netbufs = []; sent = [] }
    ∷ record { now = 2000; netbufs = []; sent = [] }
    ∷ []

caller_due : AllDue caller silence
unfolding timer_conn timer_state retry backoff send_segment netbuf_alloc
caller_due = (omega arith, (omega arith, tt))

visits-give_up_example :
    ((visits caller silence).used ≡ false)
    × ((visits caller silence).state ≡ closed)
    × ((visits caller silence).closed_flag ≡ true)
visits-give_up_example = visits-give_up silence caller refl (inl refl) refl (omega arith) caller_due

reset_bit : has 0x04 0x04 ≡ true
unfolding has
reset_bit = refl

rst_strands_example :
    IsStranded (
      history
        (rx_conn peer (seg 0x04 100) quiet).0
        (tick quiet ∷ segment (seg 0x10 100) quiet ∷ []))
rst_strands_example =
    rst_strands peer (seg 0x04 100) quiet (tick quiet ∷ segment (seg 0x10 100) quiet ∷ []) refl
      reset_bit
