-- ===== src/Net/Tcp/Fin.antt =====
-- A FIN that arrives out of order, in ESTABLISHED.
use plant_os.Base.{ℕ, ◌≡◌, ◌≢◌, ◌∙◌, true, false, [], arith}
use plant_os.Net.Tcp.{established, close_wait, Conn, World, fin, rst, ack_bit, has, send_segment}
use plant_os.Net.Tcp.Buffer.{SameBuf, unread, unread-same}
use plant_os.Net.Tcp.Rx.{
  Header, in_order, past_fin, rx_ack, rx_data, rx_fin_established, rx_established,
}
use plant_os.Net.Tcp.Handler.{by_state, rx_conn}
use plant_os.Net.Tcp.Deliver.{send_segment-rest, rx_ack-rest, rx_conn-at}

rx_data-skip : (c : Conn) (h : Header) (w : World) → h.seq ≢ c.rcv_nxt → rx_data c h w ≡ (c, w)
unfolding rx_data in_order
rx_data-skip c h w late = ground arith

-- A FIN is taken at once, in order or not: a connection that still misses bytes reports the end of
-- the stream, moves `rcv_nxt` past the FIN, and adds nothing to its buffer.
pub rx_conn-early_fin :
    (c : Conn) (h : Header) (w : World)
    → c.state ≡ established
    → has h.flags rst ≡ false
    → has h.flags fin ≡ true
    → h.seq ≢ c.rcv_nxt
    → let c' = (rx_conn c h w).0 in
      (c'.state ≡ close_wait) × (c'.rcv_nxt ≡ past_fin h) × (unread c' ≡ unread c)
unfolding by_state rx_established rx_fin_established
rx_conn-early_fin c h w s nr f early =
    let (e, n) = rx_ack-rest c h in
    rw (rx_conn-at c h w nr s, rx_data-skip (rx_ack c h) h w (rw n early), f)
      (finish
        (record (rx_ack c h) {
          rcv_nxt = past_fin h;
          state = close_wait;
          rx_fin = true;
          data_ready = true;
        })
        (record {
          rxbuf = e.rxbuf;
          rx_head = e.rx_head;
          rx_tail = e.rx_tail;
          rx_count = e.rx_count;
        })
        (rx_ack c h).snd_nxt)
  where
    finish :
        (d : Conn)
        → SameBuf c d
        → (seq : ℕ)
        → let c' = (send_segment d ack_bit seq [] w).0 in
          (c'.state ≡ d.state) × (c'.rcv_nxt ≡ d.rcv_nxt) × (unread c' ≡ unread c)
    finish d e seq =
        let (e', n, s) = send_segment-rest d ack_bit seq [] w in
        (s, n, unread-same d _ e' ∙ unread-same c d e)
