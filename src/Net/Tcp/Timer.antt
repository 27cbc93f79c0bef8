-- ===== src/Net/Tcp/Timer.antt =====
-- `tcp_timer`, `tcp_close` and `tcp_listen` of net/tcp.c.
pub mod Retries
pub mod Leak
use plant_os.Base.{
  ℕ, ◌+◌, ◌*◌, ◌%◌, ◌^◌, Bool, true, false, ◌&&◌, Option, none, some, List, [], ◌∷◌, set, take, ltb,
  leb, if◌then◌else◌,
}
use plant_os.Net.Tcp.{
  TcpState, closed, listen, syn_sent, syn_received, established, fin_wait_1, fin_wait_2, close_wait,
  closing, last_ack, time_wait, Conn, World, rto_max, max_retries, fin, syn, psh, ack_bit, add32,
  sub32, send_segment, free_conn, conn, alloc_conn,
}

-- One more try, after twice the time but at most TCP_RTO_MAX.
unfoldable pub backoff : Conn → Conn
backoff c = record c {
  retx_count = (c.retx_count + 1) % 2 ^ 8;
  rto = if ltb rto_max (c.rto * 2 % 2 ^ 32) then rto_max else c.rto * 2 % 2 ^ 32;
}

-- The shape that both retransmissions have: `resend` is what the last line of the branch sends.
unfoldable pub retry : Conn → World → (Conn → Conn × World) → Conn × World
retry c w resend =
    if leb c.rto (sub32 w.now c.retx_time)
    then (if leb max_retries c.retx_count then (free_conn c, w) else resend (backoff c))
    else (c, w)

-- `uint16_t resend = c->tx_len; if (resend > 1460) resend = 1460;`
abbrev resend_len : Conn → ℕ
resend_len c = if ltb 1460 c.tx_len then 1460 else c.tx_len

-- `snd_una < snd_nxt` is a plain comparison in the source, not `seq_lt`.
pub timer_data : Conn → World → Conn × World
timer_data c w =
    if ltb 0 c.tx_len && ltb c.snd_una c.snd_nxt
    then retry c w (λ d. send_segment d (ack_bit + psh) d.snd_una (take (resend_len d) d.txbuf) w)
    else (c, w)

unfoldable pub timer_state : TcpState → Conn → World → Conn × World
timer_state time_wait c w = if leb c.tw_expiry w.now then (free_conn c, w) else (c, w)
timer_state syn_sent c w = retry c w (λ d. send_segment d syn d.iss [] w)
timer_state syn_received c w = retry c w (λ d. send_segment d (syn + ack_bit) d.iss [] w)
timer_state established c w = timer_data c w
timer_state fin_wait_1 c w = timer_data c w
timer_state _ c w = (c, w)

-- The body of the loop of `tcp_timer` for one slot.
unfoldable pub timer_conn : Conn → World → Conn × World
timer_conn c w = if c.used then timer_state c.state c w else (c, w)

pub tcp_timer : List Conn → World → List Conn × World
tcp_timer [] w = ([], w)
tcp_timer (c ∷ cs) w =
    let (c', w') = timer_conn c w in let (cs', w'') = tcp_timer cs w' in (c' ∷ cs', w'')

-- The `switch` of `tcp_close`.
close_state : TcpState → Conn → World → Conn × World
close_state established c w =
    let (d, w') = send_segment (record c { state = fin_wait_1 }) (fin + ack_bit) c.snd_nxt [] w in
    (record d { snd_nxt = add32 d.snd_nxt 1 }, w')
close_state close_wait c w =
    let (d, w') = send_segment (record c { state = last_ack }) (fin + ack_bit) c.snd_nxt [] w in
    (record d { snd_nxt = add32 d.snd_nxt 1 }, w')
close_state listen c w = (free_conn c, w)
close_state syn_sent c w = (free_conn c, w)
close_state _ c w = (c, w)

pub tcp_close : Conn → World → Conn × World
tcp_close c w = if c.used then close_state c.state c w else (c, w)

-- `c->state != TCP_CLOSED && c->state != TCP_TIME_WAIT`
lingers : TcpState → Bool
lingers closed = false
lingers time_wait = false
lingers _ = true

-- One look of the waiting loop of `tcp_close`, `waited` ticks after its start: `none` is another
-- round, otherwise the call returns.
pub close_poll : Conn → ℕ → Option Conn
close_poll c waited =
    if c.used && lingers c.state
    then (if ltb 500 waited then some (free_conn c) else none)
    else some c

-- `tcp_listen` on the address `ip`; `none` is -1.
pub tcp_listen : List Conn → ℕ → ℕ → Option (ℕ × List Conn)
tcp_listen cs ip port = elim (alloc_conn cs) [
  | none ↦ none
  | some (i, cs') ↦
      some (i, set cs' i (record (conn cs' i) { local_ip = ip; local_port = port; state = listen }))
]
