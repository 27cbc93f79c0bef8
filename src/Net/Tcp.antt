-- ===== src/Net/Tcp.antt =====
-- net/tcp.h and the helpers of net/tcp.c: connections, the receive buffer, and sending a segment.
-- `uint32_t` and `uint16_t` values are numbers, with the wrap-around of each operation written out.
pub mod Rx
pub mod Handler
pub mod Buffer
pub mod Deliver
pub mod Edges
pub mod Fin
pub mod Timer
pub mod Stream
pub mod Demux
pub mod Open
mod Tests
use plant_os.Base.{
  ℕ, zero, suc, not, ◌+◌, ◌-◌, ◌*◌, ◌/◌, ◌%◌, ◌^◌, Bool, true, false, ◌&&◌, ◌||◌, Option, none,
  some, List, [], ◌∷◌, ◌++◌, length, get_or, set, replicate, find_index, ltb, leb, ◌==◌,
  if◌then◌else◌,
}

-- `enum tcp_state`
pub data TcpState : Type 0 where
  closed listen syn_sent syn_received established fin_wait_1 fin_wait_2 : TcpState
  close_wait closing last_ack time_wait : TcpState

-- `struct tcp_conn`; the flags for blocking callers end in `_flag` where the state has the name.
pub record Conn : Type 0 where
  pub used : Bool
  pub state : TcpState
  pub local_ip : ℕ
  pub local_port : ℕ
  pub remote_ip : ℕ
  pub remote_port : ℕ
  pub snd_una : ℕ
  pub snd_nxt : ℕ
  pub snd_wnd : ℕ
  pub iss : ℕ
  pub rcv_nxt : ℕ
  pub rcv_wnd : ℕ
  pub irs : ℕ
  pub rxbuf : List ℕ
  pub rx_head : ℕ
  pub rx_tail : ℕ
  pub rx_count : ℕ
  pub txbuf : List ℕ
  pub tx_len : ℕ
  pub tx_seq : ℕ
  pub rto : ℕ
  pub retx_time : ℕ
  pub retx_count : ℕ
  pub established_flag : Bool
  pub closed_flag : Bool
  pub data_ready : Bool
  pub rx_fin : Bool
  pub tw_expiry : ℕ

abbrev pub rxbuf_size : ℕ
rxbuf_size = 8192

abbrev pub txbuf_size : ℕ
txbuf_size = 8192

abbrev pub rto_init : ℕ
rto_init = 200

abbrev pub rto_max : ℕ
rto_max = 600

abbrev pub max_retries : ℕ
max_retries = 5

abbrev pub max_conns : ℕ
max_conns = 16

-- The flag bits of a segment, and `flags & bit`.
abbrev pub fin : ℕ
fin = 0x01

abbrev pub syn : ℕ
syn = 0x02

abbrev pub rst : ℕ
rst = 0x04

abbrev pub psh : ℕ
psh = 0x08

abbrev pub ack_bit : ℕ
ack_bit = 0x10

pub has : ℕ → ℕ → Bool
has flags bit = flags / bit % 2 == 1

abbrev pub add32 : ℕ → ℕ → ℕ
add32 a b = (a + b) % 2 ^ 32

abbrev pub sub32 : ℕ → ℕ → ℕ
sub32 a b = (a + 2 ^ 32 - b) % 2 ^ 32

abbrev pub is_state : TcpState → TcpState → Bool
is_state closed closed = true
is_state listen listen = true
is_state syn_sent syn_sent = true
is_state syn_received syn_received = true
is_state established established = true
is_state fin_wait_1 fin_wait_1 = true
is_state fin_wait_2 fin_wait_2 = true
is_state close_wait close_wait = true
is_state closing closing = true
is_state last_ack last_ack = true
is_state time_wait time_wait = true
is_state _ _ = false

-- `(int32_t)(a - b) < 0`: the top bit of the 32-bit difference is set. `<=` adds the equal case.
unfoldable pub seq_lt : ℕ → ℕ → Bool
seq_lt a b = leb (2 ^ 31) (sub32 a b)

unfoldable pub seq_le : ℕ → ℕ → Bool
unfolding seq_lt
seq_le a b = seq_lt a b || sub32 a b == 0

-- A segment handed to `ipv4_tx`, without its checksum.
pub record Segment : Type 0 where
  pub dst_ip : ℕ
  pub src_port : ℕ
  pub dst_port : ℕ
  pub seq : ℕ
  pub ack : ℕ
  pub flags : ℕ
  pub window : ℕ
  pub payload : List ℕ

-- The surroundings of a handler: the tick count, the outcomes of the `netbuf_alloc` calls to come
-- (`false`, or the end of the list, is NULL), and the segments sent so far, newest first.
pub record World : Type 0 where
  pub now : ℕ
  pub netbufs : List Bool
  pub sent : List Segment

pub netbuf_alloc : World → Bool × World
netbuf_alloc w = elim w.netbufs [ [] ↦ (false, w) | b ∷ bs ↦ (b, record w { netbufs = bs }) ]

pub rxbuf_free : Conn → ℕ
rxbuf_free c = (2 ^ 16 + rxbuf_size - c.rx_count) % 2 ^ 16

-- One round of the loop of `rxbuf_write`.
pub rxbuf_push : Conn → ℕ → Conn
rxbuf_push c x = record c {
  rxbuf = set c.rxbuf c.rx_head x;
  rx_head = (c.rx_head + 1) % rxbuf_size;
  rx_count = (c.rx_count + 1) % 2 ^ 16;
}

pub rxbuf_write : Conn → List ℕ → Conn
rxbuf_write c [] = c
rxbuf_write c (x ∷ xs) =
    let rest = rxbuf_write (rxbuf_push c x) xs in if ltb c.rx_count rxbuf_size then rest else c

-- One round of the loop of `rxbuf_read`, but for the byte.
pub rxbuf_pop : Conn → Conn
rxbuf_pop c = record c {
  rx_tail = (c.rx_tail + 1) % rxbuf_size;
  rx_count = (c.rx_count + 2 ^ 16 - 1) % 2 ^ 16;
}

-- The rounds of the loop of `rxbuf_read` that `len` leaves, with the bytes read.
pub rxbuf_read : Conn → ℕ → List ℕ × Conn
rxbuf_read c zero = ([], c)
rxbuf_read c (suc len) =
    let (xs, c') = rxbuf_read (rxbuf_pop c) len in
    if ltb 0 c.rx_count then (get_or c.rxbuf c.rx_tail 0 ∷ xs, c') else ([], c)

-- `tcp_send_segment`: nothing happens without a buffer, or if the payload does not fit behind
-- the NETBUF_HEADROOM (64) of the NETBUF_SIZE (2048) bytes. No caller looks at the result.
pub send_segment : Conn → ℕ → ℕ → List ℕ → World → Conn × World
send_segment c flags seq payload w =
    let (got, w') = netbuf_alloc w in
    if got && leb (64 + length payload) 2048
    then (
      record c { retx_time = w.now },
      record w' {
        sent =
            record {
              dst_ip = c.remote_ip;
              src_port = c.local_port;
              dst_port = c.remote_port;
              seq = seq;
              ack = c.rcv_nxt;
              flags = flags;
              window = rxbuf_free c;
              payload = payload;
            }
            ∷ w'.sent;
      },
    )
    else (c, w')

-- What `memset` to 0 makes of a slot of the table.
pub blank : Conn
blank = record {
  used = false;
  state = closed;
  local_ip = 0;
  local_port = 0;
  remote_ip = 0;
  remote_port = 0;
  snd_una = 0;
  snd_nxt = 0;
  snd_wnd = 0;
  iss = 0;
  rcv_nxt = 0;
  rcv_wnd = 0;
  irs = 0;
  rxbuf = replicate rxbuf_size 0;
  rx_head = 0;
  rx_tail = 0;
  rx_count = 0;
  txbuf = replicate txbuf_size 0;
  tx_len = 0;
  tx_seq = 0;
  rto = 0;
  retx_time = 0;
  retx_count = 0;
  established_flag = false;
  closed_flag = false;
  data_ready = false;
  rx_fin = false;
  tw_expiry = 0;
}

abbrev pub conn : List Conn → ℕ → Conn
conn cs i = get_or cs i blank

pub tcp_gen_iss : ℕ → ℕ
tcp_gen_iss now = (now * 64017 + 12345) % 2 ^ 32

-- `local_ip` is an argument of `find_conn` that the search does not look at.
pub find_conn : List Conn → ℕ → ℕ → ℕ → Option ℕ
find_conn cs local_port remote_ip remote_port =
    find_index
      (λ c.
        c.used
        && (c.local_port == local_port
            && (c.remote_port == remote_port && c.remote_ip == remote_ip)))
      cs

pub find_listener : List Conn → ℕ → Option ℕ
find_listener cs local_port =
    find_index (λ c. c.used && (is_state c.state listen && c.local_port == local_port)) cs

-- The slot that `alloc_conn` takes, and what it puts there.
pub alloc_conn : List Conn → Option (ℕ × List Conn)
alloc_conn cs = elim (find_index (λ c. not c.used) cs) [
  | none ↦ none
  | some i ↦ some (i, set cs i (record blank { used = true; rto = rto_init; rcv_wnd = rxbuf_size }))
]

pub free_conn : Conn → Conn
free_conn c = record c { used = false; state = closed; closed_flag = true }
