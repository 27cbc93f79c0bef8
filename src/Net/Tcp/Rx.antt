-- ===== src/Net/Tcp/Rx.antt =====
-- `tcp_rx` of net/tcp.c: an incoming segment, state by state.
use plant_os.Base.{
  ℕ, zero, suc, ◌+◌, ◌-◌, ◌*◌, ◌/◌, ◌%◌, ◌^◌, Bool, true, ◌&&◌, List, [], ◌∷◌, ◌++◌, take, drop,
  ltb, leb, ◌==◌, if◌then◌else◌,
}
use plant_os.Net.Tcp.{
  syn_received, established, close_wait, Conn, World, fin, syn, ack_bit, has, add32, sub32, seq_lt,
  seq_le, rto_init, rxbuf_free, rxbuf_write, send_segment,
}

-- A `netbuf`: `len` bytes from `nb->data` on, and what the memory behind them holds.
pub record Packet : Type 0 where
  pub len : ℕ
  pub byte : ℕ → ℕ

abbrev be16 : (ℕ → ℕ) → ℕ → ℕ
be16 byte i = byte i * 2 ^ 8 + byte (i + 1)

abbrev be32 : (ℕ → ℕ) → ℕ → ℕ
be32 byte i = be16 byte i * 2 ^ 16 + be16 byte (i + 2)

unfoldable pub slice : (ℕ → ℕ) → ℕ → ℕ → List ℕ
slice byte i zero = []
slice byte i (suc n) = byte i ∷ slice byte (i + 1) n

-- The locals of `tcp_rx`. `payload_len` is the 16-bit difference of the lengths, and `payload`
-- the bytes that the handler takes for the payload.
pub record Header : Type 0 where
  pub src_port : ℕ
  pub dst_port : ℕ
  pub seq : ℕ
  pub ack : ℕ
  pub flags : ℕ
  pub window : ℕ
  pub hdr_len : ℕ
  pub payload_len : ℕ
  pub payload : List ℕ

unfoldable pub tcp_header : Packet → Header
tcp_header p =
    let hdr = byte 12 / 16 * 4 in
    let n = (p.len + 2 ^ 16 - hdr) % 2 ^ 16 in
    record {
      src_port = be16 byte 0;
      dst_port = be16 byte 2;
      seq = be32 byte 4;
      ack = be32 byte 8;
      flags = byte 13;
      window = be16 byte 14;
      hdr_len = hdr;
      payload_len = n;
      payload = slice byte hdr n;
    }
  where
    open p use {byte}

-- The data part that ESTABLISHED, FIN_WAIT_1 and FIN_WAIT_2 share.
unfoldable pub in_order : Conn → Header → Bool
in_order c h = ltb 0 h.payload_len && h.seq == c.rcv_nxt

unfoldable pub accepted : Conn → Header → ℕ
accepted c h = if ltb h.payload_len (rxbuf_free c) then h.payload_len else rxbuf_free c

unfoldable pub take_data : Conn → Header → Conn
take_data c h =
    if in_order c h && ltb 0 (accepted c h)
    then record (rxbuf_write c (take (accepted c h) h.payload)) {
      rcv_nxt = add32 c.rcv_nxt (accepted c h);
      data_ready = true;
    }
    else c

-- `seq + payload_len + 1`
unfoldable pub past_fin : Header → ℕ
past_fin h = add32 (add32 h.seq h.payload_len) 1

unfoldable pub rx_syn_sent : Conn → Header → World → Conn × World
rx_syn_sent c h w =
    if has h.flags syn && has h.flags ack_bit
    then (if h.ack == c.snd_nxt
        then send_segment
            (record c {
              irs = h.seq;
              rcv_nxt = add32 h.seq 1;
              snd_una = h.ack;
              snd_wnd = h.window;
              state = established;
              established_flag = true;
              retx_count = 0;
            })
            ack_bit c.snd_nxt [] w
        else (c, w))
    else (if has h.flags syn
        then send_segment (record c { irs = h.seq; rcv_nxt = add32 h.seq 1; state = syn_received })
            (syn + ack_bit) c.iss [] w
        else (c, w))

unfoldable pub rx_syn_received : Conn → Header → Conn
rx_syn_received c h =
    if has h.flags ack_bit && h.ack == c.snd_nxt
    then record c {
      snd_una = h.ack;
      snd_wnd = h.window;
      state = established;
      established_flag = true;
      retx_count = 0;
    }
    else c

-- The first `n` bytes of the transmit buffer are acknowledged.
unfoldable pub drop_acked : Conn → ℕ → Conn
drop_acked c n =
    if ltb 0 n && leb n c.tx_len
    then record c {
      txbuf = take (c.tx_len - n) (drop n c.txbuf) ++ drop (c.tx_len - n) c.txbuf;
      tx_len = c.tx_len - n;
      tx_seq = add32 c.tx_seq n;
    }
    else (if ltb 0 n then record c { tx_len = 0 } else c)

unfoldable pub rx_ack : Conn → Header → Conn
unfolding drop_acked
rx_ack c h =
    if has h.flags ack_bit && (seq_lt c.snd_una h.ack && seq_le h.ack c.snd_nxt)
    then drop_acked
        (record c { snd_una = h.ack; snd_wnd = h.window; retx_count = 0; rto = rto_init })
        (sub32 h.ack c.snd_una)
    else c

-- The data of a segment in ESTABLISHED is acknowledged, also where nothing was accepted.
unfoldable pub rx_data : Conn → Header → World → Conn × World
rx_data c h w =
    if in_order c h
    then send_segment (take_data c h) ack_bit (take_data c h).snd_nxt [] w
    else (c, w)

unfoldable pub rx_fin_established : Conn → Header → World → Conn × World
rx_fin_established c h w =
    if has h.flags fin
    then send_segment
        (record c { rcv_nxt = past_fin h; state = close_wait; rx_fin = true; data_ready = true })
        ack_bit c.snd_nxt [] w
    else (c, w)

unfoldable pub rx_established : Conn → Header → World → Conn × World
rx_established c h w = let (c', w') = rx_data (rx_ack c h) h w in rx_fin_established c' h w'
