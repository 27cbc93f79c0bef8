-- ===== src/Net/Ipv4/Header.antt =====
-- The header that `ipv4_tx` writes, read back by `ipv4_rx`.
use plant_os.Base.{
  ℕ, ◌+◌, ◌-◌, ◌*◌, ◌/◌, ◌%◌, ◌^◌, ◌<◌, ◌≤◌, ◌≡◌, refl, ap, ◌∙◌, inl, inr, Bool-cases, false, some,
  List, [], ◌∷◌, ◌++◌, length, get_or, ltb, arith,
}
use plant_os.Net.Netbuf.{
  Netbuf, netbuf_push, netbuf_pull, byte, be32, put16, put32, fill, slice, contents, net_checksum,
}
use plant_os.Net.Netbuf.Inside.{IsInside, fill-at, fill-behind, slice-same, slice-fill}
use plant_os.Net.Netbuf.Checksum.{net_checksum-net_checksum}
use plant_os.Net.Arp.{NetConfig}
use plant_os.Net.Ipv4.{demux, strip, trim, total_len, ipv4_rx, ipv4_header, add_header}

-- The bytes of numbers.
pub be16-put16 : (x : ℕ) → x < 2 ^ 16 → x / 2 ^ 8 * 2 ^ 8 + x % 2 ^ 8 ≡ x
be16-put16 x h = omega arith

pub be32-put32 :
    (x : ℕ)
    → x < 2 ^ 32
    → (x / 2 ^ 24 * 2 ^ 8 + x / 2 ^ 16 % 2 ^ 8) * 2 ^ 16 + (x / 2 ^ 8 % 2 ^ 8 * 2 ^ 8 + x % 2 ^ 8)
      ≡ x
be32-put32 x h = omega arith

-- The field widths.
pub record IsAddressed (cfg : NetConfig) (id : ℕ) (dst : ℕ) (proto : ℕ) : Type 0 where
  pub ip_bound : cfg.ip < 2 ^ 32
  pub id_bound : id < 2 ^ 16
  pub dst_bound : dst < 2 ^ 32
  pub proto_bound : proto < 256

module _ (cfg : NetConfig) (id : ℕ) (dst : ℕ) (proto : ℕ) (v : IsAddressed cfg id dst proto) where
  -- The header before the checksum and behind it.
  abbrev front : ℕ → List ℕ
  front n = 0x45 ∷ 0 ∷ (put16 ((20 + n) % 2 ^ 16) ++ (put16 id ++ (0 ∷ 0 ∷ 64 ∷ proto ∷ [])))

  abbrev back : List ℕ
  back = put32 cfg.ip ++ put32 dst

  header_checksum :
      (n : ℕ)
      → let sum = net_checksum (ipv4_header cfg id n dst proto 0) in
        net_checksum (ipv4_header cfg id n dst proto sum) ≡ 0
  unfolding ipv4_header
  header_checksum n =
      (net_checksum-net_checksum (front n) 5 back refl (ground (arith, v.id_bound, v.proto_bound))
        (ground (arith, v.ip_bound, v.dst_bound)) (omega arith)).1

  module _ (nb : Netbuf) (room : 20 ≤ nb.start) (inside : IsInside nb) where
    abbrev sum : ℕ
    sum = net_checksum (ipv4_header cfg id nb.len dst proto 0)

    abbrev header : List ℕ
    header = ipv4_header cfg id nb.len dst proto sum

    -- The packet with the header, and what is left of it without.
    abbrev pub with_header : Netbuf
    with_header = record nb {
      raw = fill nb.raw (nb.start - 20 + 0) header;
      start = nb.start - 20;
      len = (nb.len + 20) % 2 ^ 16;
    }

    abbrev pub payload : Netbuf
    payload = record with_header { start = nb.start; len = nb.len }

    length-header : length header ≡ 20
    unfolding ipv4_header
    length-header = refl

    add_header_lem : add_header cfg id nb dst proto ≡ some with_header
    unfolding add_header netbuf_push
    add_header_lem =
        let fits : ltb nb.start 20 ≡ false = ground arith in rw (add_header, netbuf_push, fits) refl

    header_at : (k : ℕ) → k < 20 → byte with_header k ≡ get_or header k 0
    header_at k h =
        ap (λ i. fill nb.raw i header (nb.start - 20 + k)) (omega arith)
        ∙ fill-at nb.raw (nb.start - 20) header k (omega (arith, length-header))

    header_bytes : slice with_header.raw with_header.start 20 ≡ header
    unfolding ipv4_header
    header_bytes =
        ap (λ i. slice (fill nb.raw i header) with_header.start 20) (omega arith)
        ∙ slice-fill nb.raw (nb.start - 20) header

    contents_kept : contents payload ≡ contents nb
    contents_kept =
        slice-same payload.raw nb.raw nb.start nb.len (λ k lo hi.
          fill-behind nb.raw (nb.start - 20 + 0) header k (omega (arith, length-header)))

    fields :
        (byte with_header 0 ≡ 0x45)
        × (byte with_header 9 ≡ proto)
        × (total_len with_header ≡ 20 + nb.len)
        × (be32 (byte with_header) 12 ≡ cfg.ip)
        × (be32 (byte with_header) 16 ≡ dst)
    unfolding ipv4_header
    fields = (
      header_at 0 (omega arith),
      header_at 9 (omega arith),
      rw (header_at 2 (omega arith), header_at 3 (omega arith)) (omega (arith, inside.end_in)),
      rw
          (
            header_at 12 (omega arith),
            header_at 13 (omega arith),
            header_at 14 (omega arith),
            header_at 15 (omega arith),
          )
          (be32-put32 cfg.ip v.ip_bound),
      rw
          (
            header_at 16 (omega arith),
            header_at 17 (omega arith),
            header_at 18 (omega arith),
            header_at 19 (omega arith),
          )
          (be32-put32 dst v.dst_bound),
    )

    stripped : trim (strip with_header 20) (20 + nb.len) 20 ≡ payload
    unfolding trim strip netbuf_pull
    stripped =
        let fits : ltb with_header.len 20 ≡ false = ground (arith, inside.end_in) in
        let at : nb.start - 20 + 20 ≡ nb.start = omega arith in
        let less : (nb.len + 20) % 2 ^ 16 - 20 ≡ nb.len = omega (arith, inside.end_in) in
        let less' : 20 + nb.len - 20 ≡ nb.len = omega arith in
        elim (Bool-cases (ltb 20 (20 + nb.len))) [
          | inl more ↦ rw (strip, netbuf_pull, fits, trim, more, at, less') refl
          | inr none_left ↦ rw (strip, netbuf_pull, fits, trim, none_left, at, less) refl
        ]

    received : ipv4_rx with_header ≡ demux proto payload cfg.ip dst
    unfolding ipv4_rx
    received =
        let long : ltb with_header.len 20 ≡ false = ground (arith, inside.end_in) in
        rw (ipv4_rx, long, fields.0, fields.1, fields.2, fields.3, fields.4)
          (ap (λ p. demux proto p cfg.ip dst) stripped)

-- A packet with at least 20 bytes before it gets a header whose checksum is right, and `ipv4_rx` gives
-- the packet with that header to the handler of `proto`, with the same bytes and the two addresses.
pub ipv4_rx-add_header :
    (cfg : NetConfig) (id dst proto : ℕ) (nb : Netbuf)
    → IsAddressed cfg id dst proto
    → 20 ≤ nb.start
    → IsInside nb
    → (with_header : Netbuf) × (payload : Netbuf) × (add_header cfg id nb dst proto
        ≡ some with_header)
      × (net_checksum (slice with_header.raw with_header.start 20) ≡ 0)
      × (ipv4_rx with_header ≡ demux proto payload cfg.ip dst)
      × (contents payload ≡ contents nb)
ipv4_rx-add_header cfg id dst proto nb v room inside = (
  with_header cfg id dst proto v nb room inside,
  payload cfg id dst proto v nb room inside,
  add_header_lem cfg id dst proto v nb room inside,
  rw (header_bytes cfg id dst proto v nb room inside) (header_checksum cfg id dst proto v nb.len),
  received cfg id dst proto v nb room inside,
  contents_kept cfg id dst proto v nb room inside,
)
