-- ===== src/Net/Tcp/Handler.antt =====
-- `tcp_rx` of net/tcp.c, continued: the states after a FIN, and the choice of the connection.
use plant_os.Base.{
  ℕ, ◌+◌, true, ◌&&◌, not, none, some, List, [], ◌∷◌, set, ltb, ◌==◌, if◌then◌else◌,
}
use plant_os.Net.Tcp.{
  TcpState, closed, listen, syn_sent, syn_received, established, fin_wait_1, fin_wait_2, close_wait,
  closing, last_ack, time_wait, Conn, World, fin, syn, rst, ack_bit, has, add32, seq_lt, seq_le,
  send_segment, netbuf_alloc, conn, tcp_gen_iss, find_conn, find_listener, alloc_conn, free_conn,
}
use plant_os.Net.Tcp.Rx.{
  Packet, Header, tcp_header, take_data, past_fin, rx_syn_sent, rx_syn_received, rx_established,
}

-- `pit_get_ticks() + 400`
unfoldable pub tw_end : World → ℕ
tw_end w = add32 w.now 400

-- The first part of FIN_WAIT_1: the ACK of our FIN, with or without theirs.
unfoldable pub fin_wait_1_ack : Conn → Header → World → Conn × World
unfolding tw_end
fin_wait_1_ack c h w =
    if has h.flags ack_bit && h.ack == c.snd_nxt
    then (if has h.flags fin
        then send_segment
            (record c {
              snd_una = h.ack;
              rcv_nxt = past_fin h;
              state = time_wait;
              tw_expiry = tw_end w;
            })
            ack_bit c.snd_nxt [] w
        else (record c { snd_una = h.ack; state = fin_wait_2 }, w))
    else (c, w)

-- The second: a FIN that does not acknowledge ours.
unfoldable pub fin_wait_1_fin : Conn → Header → World → Conn × World
fin_wait_1_fin c h w = elim c.state [
  | fin_wait_1 ↦
      if has h.flags fin
      then send_segment (record c { rcv_nxt = past_fin h; state = closing }) ack_bit c.snd_nxt [] w
      else (c, w)
  | _ ↦ (c, w)
]

unfoldable pub rx_fin_wait_1 : Conn → Header → World → Conn × World
rx_fin_wait_1 c h w =
    let (c₁, w₁) = fin_wait_1_ack c h w in
    let (c₂, w₂) = fin_wait_1_fin c₁ h w₁ in (take_data c₂ h, w₂)

unfoldable pub rx_fin_wait_2 : Conn → Header → World → Conn × World
unfolding tw_end
rx_fin_wait_2 c h w =
    let c' = take_data c h in
    if has h.flags fin
    then send_segment
        (record c' {
          rcv_nxt = past_fin h;
          state = time_wait;
          tw_expiry = tw_end w;
          rx_fin = true;
          data_ready = true;
        })
        ack_bit c'.snd_nxt [] w
    else (c', w)

unfoldable pub rx_closing : Conn → Header → World → Conn
unfolding tw_end
rx_closing c h w =
    if has h.flags ack_bit && h.ack == c.snd_nxt
    then record c { state = time_wait; tw_expiry = tw_end w }
    else c

unfoldable pub rx_last_ack : Conn → Header → Conn
rx_last_ack c h = if has h.flags ack_bit && h.ack == c.snd_nxt then free_conn c else c

unfoldable pub rx_close_wait : Conn → Header → Conn
rx_close_wait c h =
    if has h.flags ack_bit && (seq_lt c.snd_una h.ack && seq_le h.ack c.snd_nxt)
    then record c { snd_una = h.ack }
    else c

unfoldable pub rx_time_wait : Conn → Header → World → Conn × World
unfolding tw_end
rx_time_wait c h w =
    let (c', w') = send_segment c ack_bit c.snd_nxt [] w in
    if has h.flags fin then (record c' { tw_expiry = tw_end w }, w') else (c, w)

-- The `switch` on the state; LISTEN and CLOSED are its `default`.
unfoldable pub by_state : TcpState → Conn → Header → World → Conn × World
by_state closed c h w = (c, w)
by_state listen c h w = (c, w)
by_state syn_sent c h w = rx_syn_sent c h w
by_state syn_received c h w = (rx_syn_received c h, w)
by_state established c h w = rx_established c h w
by_state fin_wait_1 c h w = rx_fin_wait_1 c h w
by_state fin_wait_2 c h w = rx_fin_wait_2 c h w
by_state close_wait c h w = (rx_close_wait c h, w)
by_state closing c h w = (rx_closing c h w, w)
by_state last_ack c h w = (rx_last_ack c h, w)
by_state time_wait c h w = rx_time_wait c h w

-- A segment for a connection of the table. A RST closes it, and leaves its slot in use.
unfoldable pub rx_conn : Conn → Header → World → Conn × World
rx_conn c h w =
    if has h.flags rst
    then (record c { state = closed; closed_flag = true; data_ready = true }, w)
    else by_state c.state c h w

-- `tcp_send_rst`, the addresses and ports those of the reply.
send_rst : Header → ℕ → World → World
send_rst h dst_ip w =
    let (got, w') = netbuf_alloc w in
    if got
    then record w' {
      sent =
          record {
            dst_ip = dst_ip;
            src_port = h.dst_port;
            dst_port = h.src_port;
            seq = if has h.flags ack_bit then h.ack else 0;
            ack = if has h.flags ack_bit then 0 else add32 h.seq 1;
            flags = if has h.flags ack_bit then rst else rst + ack_bit;
            window = 0;
            payload = [];
          }
          ∷ w'.sent;
    }
    else w'

-- The connection that a SYN to a listener opens in a slot that `alloc_conn` has set up.
unfoldable pub opened : Conn → Header → ℕ → ℕ → World → Conn
opened c h src_ip dst_ip w = record c {
  local_ip = dst_ip;
  local_port = h.dst_port;
  remote_ip = src_ip;
  remote_port = h.src_port;
  irs = h.seq;
  rcv_nxt = add32 h.seq 1;
  iss = tcp_gen_iss w.now;
  snd_una = tcp_gen_iss w.now;
  snd_nxt = add32 (tcp_gen_iss w.now) 1;
  snd_wnd = h.window;
  state = syn_received;
}

-- A SYN for the listener in slot `li`.
unfoldable pub rx_listen : List Conn → Header → ℕ → ℕ → ℕ → World → List Conn × World
unfolding opened
rx_listen cs h src_ip dst_ip li w = elim (alloc_conn cs) [
  | none ↦ (cs, w)
  | some (i, cs') ↦
      let (c, w') =
        send_segment (opened (conn cs' i) h src_ip dst_ip w) (syn + ack_bit) (tcp_gen_iss w.now) []
          w in
      let cs'' = set cs' i c in (set cs'' li (record (conn cs'' li) { data_ready = true }), w')
]

-- No connection has the segment's addresses.
unfoldable pub rx_stray : List Conn → Header → ℕ → ℕ → World → List Conn × World
unfolding send_rst
rx_stray cs h src_ip dst_ip w =
    elim (if has h.flags syn && not (has h.flags ack_bit)
      then find_listener cs h.dst_port
      else none) [
        | some li ↦ rx_listen cs h src_ip dst_ip li w
        | none ↦ (cs, if has h.flags rst then w else send_rst h src_ip w)
      ]

unfoldable pub tcp_rx : List Conn → Packet → ℕ → ℕ → World → List Conn × World
tcp_rx cs p src_ip dst_ip w =
    let h = tcp_header p in
    if ltb p.len 20 then (cs, w) else (elim (find_conn cs h.dst_port src_ip h.src_port) [
      | none ↦ rx_stray cs h src_ip dst_ip w
      | some i ↦ let (c, w') = rx_conn (conn cs i) h w in (set cs i c, w')
    ])
