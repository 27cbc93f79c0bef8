-- ===== src/Net/Tcp/Demux/Tests.antt =====
-- A SYN for a listener on port 80 meets a table with the listener and a free slot.
use plant_os.Base.{◌≡◌, refl, true, List, [], ◌∷◌, if◌then◌else◌, ◌==◌}
use plant_os.Net.Tcp.{listen, Conn, World, blank}
use plant_os.Net.Tcp.Rx.{Packet, tcp_header}

abbrev table : List Conn
table = record blank { used = true; state = listen; local_port = 80 } ∷ blank ∷ []

abbrev syn_packet : Packet
syn_packet = record {
  len = 20;
  byte = λ i. if i == 3 then 80 else if i == 12 then 0x50 else if i == 13 then 0x02 else 0;
}

abbrev quiet : World
quiet = record { now = 1000; netbufs = true ∷ []; sent = [] }

port_80 : (tcp_header syn_packet).dst_port ≡ 80
unfolding tcp_header
port_80 = refl
