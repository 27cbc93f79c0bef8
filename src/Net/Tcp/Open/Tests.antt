-- ===== src/Net/Tcp/Open/Tests.antt =====
-- A listener with one open connection.
use plant_os.Base.{◌≡◌, refl, true, some, [], ◌∷◌}
use plant_os.Net.Tcp.{Conn, blank, listen, established, conn}
use plant_os.Net.Tcp.Open.{accept_start, accept_look, child_from, returns}

abbrev listener : Conn
listener = record blank { used = true; state = listen; local_port = 80; data_ready = true }

abbrev child : Conn
child = record blank { used = true; state = established; local_port = 80; remote_port = 1000 }

abbrev second_child : Conn
second_child = record child { remote_port = 2000 }

accepted : (accept_start (listener ∷ child ∷ second_child ∷ []) 0).1 ≡ some (some 1)
unfolding accept_start child_from
accepted = refl

-- After the next notice the call returns the same connection, and never the second one.
accepted_again :
    (accept_start
      ((record (conn (accept_start (listener ∷ child ∷ second_child ∷ []) 0).0 0) {
        data_ready = true;
      })
        ∷ child
        ∷ second_child
        ∷ [])
      0).1
    ≡ some (some 1)
unfolding accept_start child_from
accepted_again = refl

returned : (accept_look (listener ∷ child ∷ []) 1 0).1 ≡ returns 1
unfolding accept_look
returned = refl
