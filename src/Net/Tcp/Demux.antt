-- ===== src/Net/Tcp/Demux.antt =====
-- Which slots of the table a segment can change, in `tcp_rx`.
mod Tests
use plant_os.Base.{
  ℕ, zero, suc, ◌≡◌, ◌≢◌, sym, ◌⊎◌, Bool, true, false, Option, none, some, List, ◌∷◌, get_or,
  find_index,
}
use plant_os.Net.Tcp.{listen, syn_received, Conn, World, conn, rst, find_conn}
use plant_os.Net.Tcp.Rx.{Header}
use plant_os.Net.Tcp.Handler.{rx_conn}

-- What a segment from `src_ip` leaves in slot `j`: what was there, the work of `rx_conn` if the
-- segment belongs to it, a new connection in a slot that was free, or a notice to a listener.
pub data Slot (cs : List Conn) (h : Header) (src_ip : ℕ) (w : World) (j : ℕ) : Conn → Type 0 where
  same : Slot cs h src_ip w j (conn cs j)
  matched :
      find_conn cs h.dst_port src_ip h.src_port ≡ some j
      → Slot cs h src_ip w j (rx_conn (conn cs j) h w).0
  new :
      {c : Conn}
      → (conn cs j).used ≡ false
      → find_conn cs h.dst_port src_ip h.src_port ≡ none
      → c.state ≡ syn_received
      → c.used ≡ true
      → c.remote_ip ≡ src_ip
      → c.remote_port ≡ h.src_port
      → c.local_port ≡ h.dst_port
      → Slot cs h src_ip w j c
  notified :
      (conn cs j).used ≡ true
      → (conn cs j).state ≡ listen
      → Slot cs h src_ip w j (record (conn cs j) { data_ready = true })
