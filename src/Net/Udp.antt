-- ===== src/Net/Udp.antt =====
-- net/udp.c. A socket number is a place of the table; a negative one is refused like one past its end.
pub mod Buffer
pub mod Bind
pub mod Deliver
mod Tests
use plant_os.Base.{
  ℕ, zero, suc, ◌+◌, ◌-◌, ◌*◌, ◌/◌, ◌%◌, ◌^◌, Bool, true, false, ◌&&◌, ◌||◌, not, Option, none,
  some, List, [], ◌∷◌, ◌++◌, length, get_or, set, replicate, find_index, ltb, leb, ◌==◌,
  if◌then◌else◌,
}
use plant_os.Net.Netbuf.{
  Netbuf, netbuf_new, netbuf_push, netbuf_put, byte, be16, put16, write_bytes, slice,
}
use plant_os.Net.Arp.{NetConfig, ArpEntry}
use plant_os.Net.Ipv4.{IpTx, ipv4_tx}

-- `struct udp_socket`
pub record UdpSocket : Type 0 where
  pub used : Bool
  pub local_port : ℕ
  pub rxbuf : List ℕ
  pub rx_head : ℕ
  pub rx_tail : ℕ
  pub rx_count : ℕ
  pub rx_src_ip : ℕ
  pub rx_src_port : ℕ
  pub data_ready : Bool

abbrev pub udp_max_sockets : ℕ
udp_max_sockets = 8

abbrev pub udp_rxbuf_size : ℕ
udp_rxbuf_size = 4096

-- All bytes 0.
unfoldable pub cleared : UdpSocket
cleared = record {
  used = false;
  local_port = 0;
  rxbuf = replicate udp_rxbuf_size 0;
  rx_head = 0;
  rx_tail = 0;
  rx_count = 0;
  rx_src_ip = 0;
  rx_src_port = 0;
  data_ready = false;
}

abbrev pub bound_to : ℕ → UdpSocket → Bool
bound_to port s = s.used && s.local_port == port

-- `none` is -1.
unfoldable pub udp_bind : List UdpSocket → ℕ → List UdpSocket × Option ℕ
udp_bind sockets port = elim (find_index (bound_to port) sockets) [
  | some i ↦ (sockets, none)
  | none ↦ elim (find_index (λ s. not s.used) sockets) [
    | none ↦ (sockets, none)
    | some i ↦ (set sockets i (record cleared { used = true; local_port = port }), some i)
  ]
]

unfoldable pub udp_sock_close : List UdpSocket → ℕ → List UdpSocket
udp_sock_close sockets sock =
    if leb udp_max_sockets sock
    then sockets
    else set sockets sock (record (get_or sockets sock cleared) { used = false })

-- One byte into the ring buffer, and the payload while there is room.
unfoldable pub udp_push : UdpSocket → ℕ → UdpSocket
udp_push s x = record s {
  rxbuf = set s.rxbuf s.rx_head x;
  rx_head = (s.rx_head + 1) % udp_rxbuf_size;
  rx_count = (s.rx_count + 1) % 2 ^ 16;
}

unfoldable pub udp_write : UdpSocket → List ℕ → UdpSocket
udp_write s [] = s
udp_write s (x ∷ xs) =
    let rest = udp_write (udp_push s x) xs in if ltb s.rx_count udp_rxbuf_size then rest else s

-- One byte out of it, and at most `n`.
unfoldable pub udp_pop : UdpSocket → UdpSocket
udp_pop s = record s { rx_tail = (s.rx_tail + 1) % udp_rxbuf_size; rx_count = s.rx_count - 1 }

unfoldable pub udp_read : ℕ → UdpSocket → List ℕ × UdpSocket
udp_read zero s = ([], s)
udp_read (suc n) s =
    let rest = udp_read n (udp_pop s) in
    if ltb 0 s.rx_count then (get_or s.rxbuf s.rx_tail 0 ∷ rest.0, rest.1) else ([], s)

-- The result of `udp_recvfrom`: -1, 0 when the time is over, or bytes with their number and the sender.
pub data Recv : Type 0 where
  refused : Recv
  timed_out : Recv
  received : List ℕ → ℕ → ℕ → Recv

-- After the read: an empty buffer is not ready.
unfoldable pub settle : UdpSocket → UdpSocket
settle s = if s.rx_count == 0 then record s { data_ready = false } else s

-- `udp_recvfrom` once it has waited.
unfoldable pub udp_recvfrom : List UdpSocket → ℕ → ℕ → List UdpSocket × Recv
udp_recvfrom sockets sock len =
    let s = get_or sockets sock cleared in
    if leb udp_max_sockets sock || not s.used
    then (sockets, refused)
    else if not s.data_ready || s.rx_count == 0
    then (sockets, timed_out)
    else (
      set sockets sock (settle (udp_read len s).1),
      received (udp_read len s).0 s.rx_src_ip s.rx_src_port,
    )

-- The length that is taken for that of the payload.
unfoldable pub payload_len : Netbuf → ℕ
payload_len nb =
    let n = (be16 (byte nb) 4 + 2 ^ 16 - 8) % 2 ^ 16 in if ltb (nb.len - 8) n then nb.len - 8 else n

-- The socket after a datagram.
unfoldable pub deliver : UdpSocket → List ℕ → ℕ → ℕ → UdpSocket
deliver s payload src_ip src_port = record (udp_write s payload) {
  rx_src_ip = src_ip;
  rx_src_port = src_port;
  data_ready = true;
}

-- What `dns_process_reply` is called with: the length and the bytes, if it is called.
unfoldable pub udp_rx : List UdpSocket → Netbuf → ℕ → List UdpSocket × Option (ℕ × (ℕ → ℕ))
udp_rx sockets nb src_ip =
    let n = payload_len nb in
    let src_port = be16 (byte nb) 0 in
    let dst_port = be16 (byte nb) 2 in
    if ltb nb.len 8
    then (sockets, none)
    else if src_port == 53 && dst_port == 1053
    then (sockets, some (n, λ i. byte nb (8 + i)))
    else elim (find_index (bound_to dst_port) sockets) [
      | none ↦ (sockets, none)
      | some i ↦ (
        set sockets i (deliver (get_or sockets i cleared) (slice (byte nb) 8 n) src_ip src_port),
        none,
      )
    ]

-- The packet of `udp_send`, which `netbuf_put` and `netbuf_push` may refuse.
unfoldable pub udp_packet : ℕ → ℕ → List ℕ → Option Netbuf
udp_packet dst_port src_port xs = elim (netbuf_put netbuf_new (length xs)) [
  | none ↦ none
  | some nb ↦ elim (netbuf_push (write_bytes nb 0 xs) 8) [
    | none ↦ none
    | some nb' ↦ some (
        write_bytes nb' 0 (
          put16 src_port ++ (put16 dst_port ++ (put16 ((8 + length xs) % 2 ^ 16) ++ (0 ∷ 0 ∷ [])))))
  ]
]

-- The bytes `xs` to send. `got` and `got'` are the outcomes of `netbuf_alloc` here and in `arp_request`; `none` is -1.
unfoldable pub udp_send :
    NetConfig → List ArpEntry → ℕ → ℕ → ℕ → ℕ → List ℕ → Bool → Bool → ℕ × Option IpTx
udp_send cfg cache id dst_ip dst_port src_port xs got got' =
    elim (udp_packet dst_port src_port xs) [
      | none ↦ (id, none)
      | some nb ↦
          let (id', tx) = ipv4_tx cfg cache id nb dst_ip 17 got' in
          if got then (id', some tx) else (id, none)
    ]

unfoldable pub udp_sendto :
    NetConfig
    → List ArpEntry
    → ℕ
    → List UdpSocket
    → ℕ
    → ℕ
    → ℕ
    → List ℕ
    → Bool
    → Bool
    → ℕ × Option IpTx
udp_sendto cfg cache id sockets sock dst_ip dst_port xs got got' =
    let s = get_or sockets sock cleared in
    if leb udp_max_sockets sock || not s.used
    then (id, none)
    else udp_send cfg cache id dst_ip dst_port s.local_port xs got got'
