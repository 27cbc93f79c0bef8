-- ===== src/Net/Icmp.antt =====
-- net/icmp.c. The packet that is handed to `ipv4_tx` is the result; Net.Ipv4 says what is done with it.
pub mod Echo
mod Tests
use plant_os.Base.{
  ℕ, ◌+◌, ◌-◌, ◌*◌, ◌/◌, ◌%◌, ◌^◌, Bool, true, false, Option, none, some, List, [], ◌∷◌, ◌++◌,
  replicate, ltb, ◌==◌, if◌then◌else◌,
}
use plant_os.Net.Netbuf.{
  Netbuf, netbuf_new, netbuf_put, byte, be16, put16, write_bytes, slice, contents, net_checksum,
}

-- The pending ping.
pub record Ping : Type 0 where
  pub received : Bool
  pub expect_seq : ℕ
  pub rtt_start : ℕ
  pub rtt : ℕ

-- What else a received message leads to: nothing; a reply, sent to the address; or the copy of the
-- message to the address NULL, which `netbuf_put` gives for want of room.
pub data IcmpRx : Type 0 where
  ignored : IcmpRx
  replied : Netbuf → ℕ → IcmpRx
  copied_to_null : IcmpRx

-- A message whose first two bytes are `type` and `code`, with its checksum.
unfoldable pub message : ℕ → ℕ → List ℕ → List ℕ
message type code rest = type ∷ code ∷ (put16 (net_checksum (type ∷ code ∷ 0 ∷ 0 ∷ rest)) ++ rest)

-- A new buffer with the bytes; `netbuf_put` may refuse their number `n`.
unfoldable pub with_bytes : ℕ → List ℕ → Option Netbuf
with_bytes n xs = elim (netbuf_put netbuf_new n) [
  | none ↦ none
  | some nb ↦ some (write_bytes nb 0 xs)
]

unfoldable pub echo_reply : Netbuf → ℕ → IcmpRx
echo_reply nb src_ip =
    elim (with_bytes nb.len (message 0 (byte nb 1) (slice (byte nb) 4 (nb.len - 4)))) [
      | none ↦ copied_to_null
      | some reply ↦ replied reply src_ip
    ]

-- `ticks` is `pit_get_ticks()`.
unfoldable pub echo_received : Ping → ℕ → ℕ → Ping
echo_received ping seq ticks =
    if seq == ping.expect_seq
    then record ping { rtt = (ticks + 2 ^ 32 - ping.rtt_start) % 2 ^ 32; received = true }
    else ping

-- `got` is the outcome of `netbuf_alloc`.
unfoldable pub icmp_rx : Ping → Netbuf → ℕ → ℕ → Bool → Ping × IcmpRx
icmp_rx ping nb src_ip ticks got =
    let reply = echo_reply nb src_ip in
    let received = echo_received ping (be16 (byte nb) 6) ticks in
    if ltb nb.len 8
    then (ping, ignored)
    else if byte nb 0 == 8
    then (if got then (ping, reply) else (ping, ignored))
    else if byte nb 0 == 0
    then (received, ignored)
    else (ping, ignored)

-- `data[8 + i] = i` for the 32 bytes from `i` on.
unfoldable pub pattern : ℕ → List ℕ
pattern i = slice (λ k. k % 256) i 32

-- `icmp_ping` before it waits: the pending ping, and the request if there is a buffer.
unfoldable pub icmp_ping : Ping → ℕ → ℕ → Bool → Ping × Option Netbuf
icmp_ping ping seq ticks got = (
  record ping { received = false; expect_seq = seq; rtt_start = ticks },
  (if got then with_bytes 40 (message 8 0 (put16 0x1234 ++ (put16 seq ++ pattern 0))) else none),
)

-- One round of its wait, which began at `start`: another round, the result -1, or the time.
pub data Wait : Type 0 where
  waits : Wait
  timed_out : Wait
  replied_in : ℕ → Wait

unfoldable pub icmp_wait : Ping → ℕ → ℕ → ℕ → Wait
icmp_wait ping start ticks timeout =
    if ping.received
    then replied_in ping.rtt
    else if ltb timeout ((ticks + 2 ^ 32 - start) % 2 ^ 32)
    then timed_out
    else waits
