-- ===== src/Net/Ipv4/Trim.antt =====
-- The length that an IP header gives its packet, in `ipv4_rx`.
use plant_os.Base.{
  ℕ, ◌+◌, ◌-◌, ◌/◌, ◌%◌, ◌^◌, ◌<◌, ◌≤◌, ◌≡◌, ◌↔◌, ◌⊎◌, refl, inl, inr, true, false, ◌||◌, not, ltb,
  ◌==◌, arith,
}
use plant_os.Net.Netbuf.{Netbuf, netbuf_size, netbuf_pull, byte}
use plant_os.Net.Netbuf.Inside.{IsInside}
use plant_os.Net.Ipv4.{
  IpRx, dropped, to_icmp, to_tcp, to_udp, strip, trim, demux, hdr_len, total_len, ipv4_rx,
}

-- A handler gets the packet, and it is one that `P` holds of.
abbrev pub Delivers : IpRx → (Netbuf → Type 0) → Type 0
Delivers dropped P = ⊥
Delivers (to_icmp nb src) P = P nb
Delivers (to_tcp nb src dst) P = P nb
Delivers (to_udp nb src) P = P nb

demux-Delivers :
    (proto : ℕ) (nb : Netbuf) (src dst : ℕ) (P : Netbuf → Type 0)
    → (proto ≡ 1) ⊎ ((proto ≡ 6) ⊎ (proto ≡ 17))
    → P nb
    → Delivers (demux proto nb src dst) P
unfolding demux
demux-Delivers proto nb src dst P known p = elim known [
  | inl e ↦ rw e p
  | inr (inl e) ↦ rw e p
  | inr (inr e) ↦ rw e p
]

-- A header that fits is stripped, and the packet gets the length that is left of the field's.
pub trim-strip :
    (nb : Netbuf) (total hdr : ℕ)
    → hdr ≤ nb.len
    → hdr < total
    → trim (strip nb hdr) total hdr ≡ record nb { start = nb.start + hdr; len = total - hdr }
unfolding trim strip netbuf_pull
trim-strip nb total hdr fits more =
    let fits' : ltb nb.len hdr ≡ false = ground arith in
    let more' : ltb hdr total ≡ true = ground arith in
    rw (trim, more', strip, netbuf_pull, fits') refl

-- A packet of version 4 for ICMP, TCP or UDP with a whole header, of at least 20 bytes, and a length
-- field that names more than the header: it is handed on, and the handler's packet is in the buffer
-- exactly if the length that the field names is, whatever was received.
pub ipv4_rx-IsInside :
    (nb : Netbuf)
    → IsInside nb
    → byte nb 0 / 2 ^ 4 % 2 ^ 4 ≡ 4
    → 20 ≤ hdr_len nb
    → hdr_len nb ≤ nb.len
    → hdr_len nb < total_len nb
    → (byte nb 9 ≡ 1) ⊎ ((byte nb 9 ≡ 6) ⊎ (byte nb 9 ≡ 17))
    → Delivers (ipv4_rx nb) (λ nb'.
      (nb'.start ≡ nb.start + hdr_len nb)
      × (nb'.start + nb'.len ≡ nb.start + total_len nb)
      × (IsInside nb' ↔ nb.start + total_len nb ≤ netbuf_size))
unfolding ipv4_rx
ipv4_rx-IsInside nb v version five h t known =
    let long : ltb nb.len 20 ≡ false = ground arith in
    let good : (not (byte nb 0 / 2 ^ 4 % 2 ^ 4 == 4) || ltb (byte nb 0 % 2 ^ 4) 5) ≡ false =
      ground arith in
    rw (long, good, trim-strip nb (total_len nb) (hdr_len nb) h t)
      (demux-Delivers (byte nb 9) _ _ _ _ known (
        refl,
        omega arith,
        ((λ v'. omega (arith, v'.end_in)), (λ b. record { end_in = omega arith })),
      ))
