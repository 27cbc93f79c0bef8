-- ===== src/Net/Ipv4/Tests.antt =====
-- Packets with good and bad lengths.
use plant_os.Base.{◌+◌, ◌≤◌, ◌≡◌, ◌↔◌, refl, inr, some, [], ◌∷◌, ◌==◌, if◌then◌else◌, arith}
use plant_os.Net.Netbuf.{Netbuf, netbuf_size, slice, contents, net_checksum, netbuf_new}
use plant_os.Net.Netbuf.Inside.{IsInside}
use plant_os.Net.Arp.{NetConfig}
use plant_os.Net.Ipv4.{
  IpRx, dropped, to_icmp, to_tcp, to_udp, demux, hdr_len, total_len, ipv4_rx, add_header,
}
use plant_os.Net.Ipv4.Header.{ipv4_rx-add_header}
use plant_os.Net.Ipv4.Trim.{Delivers, ipv4_rx-IsInside}

abbrev cfg : NetConfig
cfg = record {
  ip = 0x0a00020f;
  gateway = 0x0a000202;
  netmask = 0xffffff00;
  mac = 2 ∷ 0 ∷ 0 ∷ 0 ∷ 0 ∷ 1 ∷ [];
}

abbrev four_bytes : Netbuf
four_bytes = record { raw = λ i. 7; start = 64; len = 4 }

ipv4_rx-add_header_example :
    (with_header : Netbuf) × (payload : Netbuf) × (add_header cfg 1 four_bytes 0x0a000202 17
      ≡ some with_header)
    × (net_checksum (slice with_header.raw with_header.start 20) ≡ 0)
    × (ipv4_rx with_header ≡ demux 17 payload 0x0a00020f 0x0a000202)
    × (contents payload ≡ contents four_bytes)
ipv4_rx-add_header_example =
    ipv4_rx-add_header cfg 1 0x0a000202 17 four_bytes
      (record {
        ip_bound = omega arith;
        id_bound = omega arith;
        dst_bound = omega arith;
        proto_bound = omega arith;
      })
      (omega arith) (record { end_in = omega arith })

-- 30 bytes for UDP whose header says 0xff00.
abbrev long_claim : Netbuf
long_claim = record {
  raw = λ i. if i == 78 then 0x45 else if i == 80 then 0xff else if i == 87 then 17 else 0;
  start = 78;
  len = 30;
}

outside : Delivers (ipv4_rx long_claim) (λ nb. (nb.start ≡ 98) × (nb.len ≡ 65260))
unfolding ipv4_rx plant_os.Net.Ipv4.demux plant_os.Net.Ipv4.trim plant_os.Net.Ipv4.strip
    plant_os.Net.Netbuf.netbuf_pull
outside = (refl, refl)

ipv4_rx-IsInside_example : Delivers (ipv4_rx long_claim) (λ nb'.
    (nb'.start ≡ long_claim.start + hdr_len long_claim)
    × (nb'.start + nb'.len ≡ long_claim.start + total_len long_claim)
    × (IsInside nb' ↔ long_claim.start + total_len long_claim ≤ netbuf_size))
ipv4_rx-IsInside_example =
    ipv4_rx-IsInside long_claim (record { end_in = omega arith }) refl (omega arith) (omega arith)
      (omega arith) (inr (inr refl))
