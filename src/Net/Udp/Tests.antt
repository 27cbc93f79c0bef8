-- ===== src/Net/Udp/Tests.antt =====
-- A socket and a datagram for it.
use plant_os.Base.{
  ℕ, ◌<◌, ◌≡◌, refl, min, true, none, some, List, [], ◌∷◌, ◌++◌, length, get_or, find_index, arith,
}
use plant_os.Net.Netbuf.{Netbuf, slice}
use plant_os.Net.Udp.{UdpSocket, cleared, bound_to, received, udp_recvfrom, payload_len, udp_rx}
use plant_os.Net.Udp.Buffer.{unread}
use plant_os.Net.Udp.Bind.{cleared-IsRing}
use plant_os.Net.Udp.Deliver.{payload, waiting, udp_recvfrom-udp_rx}

-- The second socket listens at port 7.
abbrev on_7 : UdpSocket
on_7 = record cleared { used = true; local_port = 7 }

abbrev sockets : List UdpSocket
sockets = record on_7 { local_port = 8 } ∷ on_7 ∷ []

-- From port 9 to port 7, with the bytes 1 2.
abbrev datagram : Netbuf
datagram = record {
  raw = λ i. get_or (0 ∷ 9 ∷ 0 ∷ 7 ∷ 0 ∷ 10 ∷ 0 ∷ 0 ∷ 1 ∷ 2 ∷ []) i 0;
  start = 0;
  len = 10;
}

bytes : payload datagram ≡ 1 ∷ 2 ∷ []
unfolding slice payload_len
bytes = refl

second : find_index (bound_to 7) sockets ≡ some 1
unfolding find_index
second = refl

waits : 0 < length (waiting on_7 datagram)
unfolding slice payload_len unread cleared
waits = omega arith

udp_recvfrom-udp_rx_example :
    let (sockets', dns) = udp_rx sockets datagram 0x0a000202 in
    let (sockets'', result) = udp_recvfrom sockets' 1 5 in
    (xs : List ℕ) × (result ≡ received xs 0x0a000202 9)
    × (xs ++ unread (get_or sockets'' 1 cleared) ≡ waiting on_7 datagram)
    × (length xs ≡ min 5 (length (waiting on_7 datagram)))
    × (dns ≡ none)
    × (get_or sockets'' 0 cleared ≡ get_or sockets 0 cleared)
udp_recvfrom-udp_rx_example =
    udp_recvfrom-udp_rx sockets datagram 0x0a000202 1 5 0 second (omega arith) (cleared-IsRing 7).0
      (omega arith) (ground arith) waits (ground arith)
