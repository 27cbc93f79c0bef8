-- ===== src/Net/Udp/Deliver.antt =====
-- From a received datagram to the reader of the socket.
use plant_os.Base.{
  ℕ, ◌-◌, ◌≤◌, ◌<◌, min, ◌≡◌, ◌≢◌, refl, sym, ◌∙◌, ap, inl, inr, true, false, none, some, List, [],
  ◌∷◌, ◌++◌, length, length-set, get_or, get_or-set, set, take, find_index, find_index-IsFirst, ltb,
  leb, ◌==◌, ◌&&◌, Bool-cases, arith,
}
use plant_os.Net.Netbuf.{Netbuf, byte, be16, slice}
use plant_os.Net.Udp.{
  UdpSocket, udp_max_sockets, udp_rxbuf_size, cleared, bound_to, udp_push, udp_write, udp_read,
  settle, received, udp_recvfrom, payload_len, deliver, udp_rx,
}
use plant_os.Net.Udp.Buffer.{IsRing, unread, length-unread, udp_write_lem, udp_read_lem}

-- The bytes that the code takes for the payload.
abbrev pub payload : Netbuf → List ℕ
payload nb = slice (byte nb) 8 (payload_len nb)

-- What waits in the socket once the payload has been written to it.
abbrev pub waiting : UdpSocket → Netbuf → List ℕ
waiting s nb = unread s ++ take (udp_rxbuf_size - s.rx_count) (payload nb)

settle_lem : (s : UdpSocket) → unread (settle s) ≡ unread s
unfolding settle unread
settle_lem s = elim (Bool-cases (s.rx_count == 0)) [ inl e ↦ rw e refl | inr e ↦ rw e refl ]

udp_write-used : (s : UdpSocket) (xs : List ℕ) → (udp_write s xs).used ≡ s.used
unfolding udp_write udp_push
udp_write-used s [] = refl
udp_write-used s (x ∷ xs) = ground (arith, udp_write-used (udp_push s x) xs)

module _ (s : UdpSocket) (nb : Netbuf) (src port : ℕ) (r : IsRing s) where
  abbrev after : UdpSocket
  after = deliver s (payload nb) src port

  deliver-IsRing : IsRing after × (unread after ≡ waiting s nb)
  unfolding deliver unread
  deliver-IsRing =
      let (r', e) = udp_write_lem s (payload nb) r in
      (
        record {
          storage = r'.storage;
          tail_in = r'.tail_in;
          count_in = r'.count_in;
          head_at = r'.head_at;
        },
        e,
      )

  deliver-count : after.rx_count ≡ length (waiting s nb)
  deliver-count = sym (length-unread after) ∙ ap length deliver-IsRing.1

  -- A reader takes from the socket after the datagram.
  module _ (sockets : List UdpSocket) (i len : ℕ) (at : get_or sockets i cleared ≡ after) where
    recv_lem :
        s.used ≡ true
        → i < udp_max_sockets
        → 0 < length (waiting s nb)
        → udp_recvfrom sockets i len ≡ (
          set sockets i (settle (udp_read len after).1),
          received (udp_read len after).0 src port,
        )
    unfolding udp_recvfrom deliver
    recv_lem used lt some_in =
        let valid : leb udp_max_sockets i ≡ false = ground arith in
        let used' : (udp_write s (payload nb)).used ≡ true = udp_write-used s (payload nb) ∙ used in
        let filled : (udp_write s (payload nb)).rx_count ≢ 0 =
          λ z. absurd (omega (arith, deliver-count, some_in, z)) in
        let filled' : ((udp_write s (payload nb)).rx_count == 0) ≡ false = ground (arith, filled) in
        rw (udp_recvfrom, at, valid, used', filled') refl

rx_lem :
    (sockets : List UdpSocket) (nb : Netbuf) (src i : ℕ)
    → find_index (bound_to (be16 (byte nb) 2)) sockets ≡ some i
    → 8 ≤ nb.len
    → (be16 (byte nb) 0 == 53 && be16 (byte nb) 2 == 1053) ≡ false
    → udp_rx sockets nb src ≡ (
      set sockets i (deliver (get_or sockets i cleared) (payload nb) src (be16 (byte nb) 0)),
      none,
    )
unfolding udp_rx
rx_lem sockets nb src i found long port =
    let long' : ltb nb.len 8 ≡ false = ground arith in rw (udp_rx, long', port, found) refl

-- A datagram for a bound port that is not a DNS reply (from port 53 to port 1053), of which at least one byte waits in the socket
-- then: the reader gets the oldest bytes, as many as it asks for or wait, those of earlier datagrams
-- first and then the part of the payload that there was room for, all under the address and the port
-- of the last sender. The rest waits further, and no other socket changes.
pub udp_recvfrom-udp_rx :
    (sockets : List UdpSocket) (nb : Netbuf) (src i len j : ℕ)
    → find_index (bound_to (be16 (byte nb) 2)) sockets ≡ some i
    → i < udp_max_sockets
    → IsRing (get_or sockets i cleared)
    → 8 ≤ nb.len
    → (be16 (byte nb) 0 == 53 && be16 (byte nb) 2 == 1053) ≡ false
    → 0 < length (waiting (get_or sockets i cleared) nb)
    → j ≢ i
    → let here = waiting (get_or sockets i cleared) nb in
      let (sockets', dns) = udp_rx sockets nb src in
      let (sockets'', result) = udp_recvfrom sockets' i len in
      (xs : List ℕ) × (result ≡ received xs src (be16 (byte nb) 0))
      × (xs ++ unread (get_or sockets'' i cleared) ≡ here)
      × (length xs ≡ min len (length here))
      × (dns ≡ none)
      × (get_or sockets'' j cleared ≡ get_or sockets j cleared)
udp_recvfrom-udp_rx sockets nb src i len j found lt r long port some_in other =
    let f = find_index-IsFirst (bound_to (be16 (byte nb) 2)) cleared sockets found in
    let s = get_or sockets i cleared in
    let src_port = be16 (byte nb) 0 in
    let s' = deliver s (payload nb) src src_port in
    let sockets' = set sockets i s' in
    let (r', e) = deliver-IsRing s nb src src_port r in
    let (xs, s'') = udp_read len s' in
    let (r'', kept, n) = udp_read_lem len s' r' in
    let at : get_or sockets' i cleared ≡ s' =
      ground (arith, get_or-set sockets i i s' cleared f.in_range) in
    let used : s.used ≡ true = ground (arith, f.passes) in
    let in_range' : i < length sockets' = rw (length-set sockets i s') f.in_range in
    let at' : get_or (set sockets' i (settle s'')) i cleared ≡ settle s'' =
      ground (arith, get_or-set sockets' i i (settle s'') cleared in_range') in
    let at_j : get_or (set sockets' i (settle s'')) j cleared ≡ get_or sockets j cleared = ground (
      arith,
      get_or-set sockets' i j (settle s'') cleared in_range',
      get_or-set sockets i j s' cleared f.in_range,
      other,
    ) in
    rw
      (
        rx_lem sockets nb src i found long port,
        recv_lem s nb src src_port r sockets' i len at used lt some_in,
      )
      (
        xs,
        refl,
        rw at' (ap (◌++◌ xs) (settle_lem s'') ∙ kept ∙ e),
        n ∙ ap (min len) (deliver-count s nb src src_port r),
        refl,
        at_j,
      )
