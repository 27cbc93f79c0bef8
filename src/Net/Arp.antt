-- ===== src/Net/Arp.antt =====
-- net/arp.c and `eth_tx` of net/ethernet.c. A hardware address is the list of its six bytes, and a
-- frame the list of the bytes that are handed to `e1000_send` (drivers/e1000.c).
pub mod Resolve
mod Tests
use plant_os.Base.{
  ℕ, ◌+◌, ◌*◌, ◌/◌, ◌%◌, ◌^◌, Bool, true, false, ◌&&◌, not, Option, none, some, List, [], ◌∷◌, ◌++◌,
  length, get_or, set, replicate, find_index, ltb, ◌==◌, if◌then◌else◌,
}
use plant_os.Net.Netbuf.{
  Netbuf, netbuf_new, netbuf_push, netbuf_put, byte, be16, be32, put16, put32, write_bytes, slice,
  contents,
}

-- `struct net_config`
pub record NetConfig : Type 0 where
  pub ip : ℕ
  pub gateway : ℕ
  pub netmask : ℕ
  pub mac : List ℕ

-- `struct arp_entry`
pub record ArpEntry : Type 0 where
  pub ip : ℕ
  pub mac : List ℕ
  pub valid : Bool

abbrev pub blank : ArpEntry
blank = record { ip = 0; mac = replicate 6 0; valid = false }

abbrev pub arp_cache_size : ℕ
arp_cache_size = 16

unfoldable pub arp_init : List ArpEntry
arp_init = replicate arp_cache_size blank

abbrev pub knows : ℕ → ArpEntry → Bool
knows ip e = e.valid && e.ip == ip

-- The slot that `arp_cache_put` writes: that of the address, else a free one, else the first.
unfoldable pub put_slot : List ArpEntry → ℕ → ℕ
put_slot cache ip = elim (find_index (knows ip) cache) [
  | some i ↦ i
  | none ↦ elim (find_index (λ e. not e.valid) cache) [ some i ↦ i | none ↦ 0 ]
]

unfoldable pub arp_cache_put : List ArpEntry → ℕ → List ℕ → List ArpEntry
arp_cache_put cache ip mac =
    set cache (put_slot cache ip) (record { ip = ip; mac = mac; valid = true })

abbrev pub arp_learn : List ArpEntry → ℕ → List ℕ → List ArpEntry
arp_learn = arp_cache_put

unfoldable pub arp_resolve : List ArpEntry → ℕ → Option (List ℕ)
arp_resolve cache ip = elim (find_index (knows ip) cache) [
  | some i ↦ some (get_or cache i blank).mac
  | none ↦ none
]

-- The 28 bytes of a `struct arp_header`.
unfoldable pub arp_header : ℕ → List ℕ → ℕ → List ℕ → ℕ → List ℕ
arp_header opcode sender_mac sender_ip target_mac target_ip =
    put16 1
    ++ (put16 0x0800
        ++ (6
            ∷ 4
            ∷ (put16 opcode
                ++ (sender_mac ++ (put32 sender_ip ++ (target_mac ++ put32 target_ip))))))

-- The frame that `eth_tx` hands to the driver; `none` is the result -1 for want of headroom.
unfoldable pub eth_tx : NetConfig → Netbuf → List ℕ → ℕ → Option (List ℕ)
eth_tx cfg nb dst_mac ethertype = elim (netbuf_push nb 14) [
  | none ↦ none
  | some nb' ↦ some (contents (write_bytes nb' 0 (dst_mac ++ (cfg.mac ++ put16 ethertype))))
]

-- A new buffer with an ARP packet, sent.
unfoldable pub arp_send : NetConfig → List ℕ → List ℕ → Option (List ℕ)
arp_send cfg packet dst_mac = elim (netbuf_put netbuf_new 28) [
  | none ↦ none
  | some nb ↦ eth_tx cfg (write_bytes nb 0 packet) dst_mac 0x0806
]

-- `got` is the outcome of `netbuf_alloc`.
unfoldable pub arp_request : NetConfig → ℕ → Bool → Option (List ℕ)
arp_request cfg target_ip got =
    if got
    then arp_send cfg (arp_header 1 cfg.mac cfg.ip (replicate 6 0) target_ip) (replicate 6 0xff)
    else none

-- The cache, and the reply that is sent.
unfoldable pub arp_rx : NetConfig → List ArpEntry → Netbuf → Bool → List ArpEntry × Option (List ℕ)
arp_rx cfg cache nb got =
    let sender_mac = slice (byte nb) 8 6 in
    let sender_ip = be32 (byte nb) 14 in
    let reply = arp_send cfg (arp_header 2 cfg.mac cfg.ip sender_mac sender_ip) sender_mac in
    if ltb nb.len 28 then (cache, none) else (
      arp_cache_put cache sender_ip sender_mac,
      (if be16 (byte nb) 6 == 1 && (be32 (byte nb) 24 == cfg.ip && got) then reply else none),
    )
