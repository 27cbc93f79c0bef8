-- ===== src/Net/Ipv4.antt =====
-- net/ipv4.c, and `eth_rx` of net/ethernet.c.
pub mod Header
pub mod Trim
mod Tests
use Prim.Native.Nat.{bit_and}
use plant_os.Base.{
  ℕ, ◌+◌, ◌-◌, ◌*◌, ◌/◌, ◌%◌, ◌^◌, Bool, ◌&&◌, ◌||◌, not, Option, none, some, List, [], ◌∷◌, ◌++◌,
  ltb, leb, ◌==◌, if◌then◌else◌,
}
use plant_os.Net.Netbuf.{
  Netbuf, netbuf_push, netbuf_pull, byte, be16, be32, put16, put32, write_bytes, slice,
  net_checksum,
}
use plant_os.Net.Arp.{NetConfig, ArpEntry, arp_learn, arp_resolve, arp_request, eth_tx}

-- The handler that a received packet goes to; `dropped` is `netbuf_free`.
pub data IpRx : Type 0 where
  dropped : IpRx
  to_icmp : Netbuf → ℕ → IpRx
  to_tcp : Netbuf → ℕ → ℕ → IpRx
  to_udp : Netbuf → ℕ → IpRx

-- `netbuf_pull(nb, n)` whose result is not looked at.
unfoldable pub strip : Netbuf → ℕ → Netbuf
strip nb n = elim (netbuf_pull nb n) [ none ↦ nb | some nb' ↦ nb' ]

-- The length is trimmed to that of the IP header.
unfoldable pub trim : Netbuf → ℕ → ℕ → Netbuf
trim nb total_len hdr_len =
    if ltb hdr_len total_len then record nb { len = total_len - hdr_len } else nb

-- `switch (proto)`
unfoldable pub demux : ℕ → Netbuf → ℕ → ℕ → IpRx
demux proto nb src_ip dst_ip =
    if proto == 1
    then to_icmp nb src_ip
    else if proto == 6
    then to_tcp nb src_ip dst_ip
    else if proto == 17
    then to_udp nb src_ip
    else dropped

-- The length of the header in bytes, and the length that the header gives the packet.
abbrev pub hdr_len : Netbuf → ℕ
hdr_len nb = byte nb 0 % 2 ^ 4 * 4

abbrev pub total_len : Netbuf → ℕ
total_len nb = be16 (byte nb) 2

unfoldable pub ipv4_rx : Netbuf → IpRx
ipv4_rx nb =
    if ltb nb.len 20
    then dropped
    else if not (byte nb 0 / 2 ^ 4 % 2 ^ 4 == 4) || ltb (byte nb 0 % 2 ^ 4) 5
    then dropped
    else demux (byte nb 9) (trim (strip nb (hdr_len nb)) (total_len nb) (hdr_len nb))
        (be32 (byte nb) 12) (be32 (byte nb) 16)

-- What a frame is for: the ARP handler, or a protocol of the packet.
pub data EthRx : Type 0 where
  to_arp : Netbuf → EthRx
  to_ip : IpRx → EthRx
  unknown : EthRx

-- The cache after the sender of an IP frame is learned.
unfoldable pub eth_learn : List ArpEntry → Netbuf → List ArpEntry
eth_learn cache nb =
    let src_ip = be32 (byte nb) 26 in
    if be16 (byte nb) 12 == 0x0800 && (leb 34 nb.len && not (src_ip == 0))
    then arp_learn cache src_ip (slice (byte nb) 6 6)
    else cache

unfoldable pub eth_rx : List ArpEntry → Netbuf → List ArpEntry × EthRx
eth_rx cache nb =
    let ethertype = be16 (byte nb) 12 in
    let nb' = strip nb 14 in
    if ltb nb.len 14 then (cache, unknown) else (
      eth_learn cache nb,
      (if ethertype == 0x0806
          then to_arp nb'
          else if ethertype == 0x0800
          then to_ip (ipv4_rx nb')
          else unknown),
    )

-- The 20 bytes of the header with the checksum `sum`.
unfoldable pub ipv4_header : NetConfig → ℕ → ℕ → ℕ → ℕ → ℕ → List ℕ
ipv4_header cfg id payload_len dst_ip protocol sum =
    0x45
    ∷ 0
    ∷ (put16 ((20 + payload_len) % 2 ^ 16)
        ++ (put16 id ++ (0 ∷ 0 ∷ 64 ∷ protocol ∷ (put16 sum ++ (put32 cfg.ip ++ put32 dst_ip)))))

-- The packet with the header in front; `none` for want of headroom.
unfoldable pub add_header : NetConfig → ℕ → Netbuf → ℕ → ℕ → Option Netbuf
add_header cfg id nb dst_ip protocol = elim (netbuf_push nb 20) [
  | none ↦ none
  | some nb' ↦ some (
      write_bytes nb' 0 (
        ipv4_header cfg id nb.len dst_ip protocol
          (net_checksum (ipv4_header cfg id nb.len dst_ip protocol 0))))
]

unfoldable pub next_hop : NetConfig → ℕ → ℕ
next_hop cfg dst_ip =
    if bit_and dst_ip cfg.netmask == bit_and cfg.ip cfg.netmask then dst_ip else cfg.gateway

-- What `ipv4_tx` did: no headroom; an ARP request in place of the packet (the frame, if one was
-- sent); or the frame that the driver was given, whose result is the result.
pub data IpTx : Type 0 where
  no_headroom : IpTx
  asked : Option (List ℕ) → IpTx
  sent : Option (List ℕ) → IpTx

unfoldable pub route : NetConfig → List ArpEntry → Netbuf → ℕ → Bool → IpTx
route cfg cache nb hop got = elim (arp_resolve cache hop) [
  | none ↦ asked (arp_request cfg hop got)
  | some mac ↦ sent (eth_tx cfg nb mac 0x0800)
]

-- With the new `ip_id_counter`. `got` is the outcome of `netbuf_alloc` in `arp_request`.
unfoldable pub ipv4_tx : NetConfig → List ArpEntry → ℕ → Netbuf → ℕ → ℕ → Bool → ℕ × IpTx
ipv4_tx cfg cache id nb dst_ip protocol got = elim (add_header cfg id nb dst_ip protocol) [
  | none ↦ (id, no_headroom)
  | some nb' ↦ ((id + 1) % 2 ^ 16, route cfg cache nb' (next_hop cfg dst_ip) got)
]
