-- ===== src/Net/Tcp/Timer/Leak.antt =====
-- What becomes of the slot of a connection that a RST closes.
use plant_os.Base.{ℕ, ◌≡◌, refl, true, Option, none, some, List, [], ◌∷◌, arith}
use plant_os.Net.Tcp.{closed, Conn, World, rst, has}
use plant_os.Net.Tcp.Rx.{Header}
use plant_os.Net.Tcp.Handler.{rx_conn, by_state}
use plant_os.Net.Tcp.Timer.{timer_conn, timer_state, tcp_close, close_state, close_poll, lingers}

-- What can happen to a connection: a segment, a visit of the timer, a call of `tcp_close`, and a
-- look of its waiting loop after some ticks.
pub data Event : Type 0 where
  segment : Header → World → Event
  tick close : World → Event
  poll : ℕ → Event

abbrev polled : Conn → Option Conn → Conn
polled c none = c
polled c (some d) = d

pub happen : Conn → Event → Conn
happen c (segment h w) = (rx_conn c h w).0
happen c (tick w) = (timer_conn c w).0
happen c (close w) = (tcp_close c w).0
happen c (poll waited) = polled c (close_poll c waited)

pub history : Conn → List Event → Conn
history c [] = c
history c (e ∷ es) = history (happen c e) es

-- The slot is in use by a connection that is closed.
pub record IsStranded (c : Conn) : Type 0 where
  pub used : c.used ≡ true
  pub state : c.state ≡ closed

happen-IsStranded : (c : Conn) (e : Event) → IsStranded c → IsStranded (happen c e)
unfolding happen rx_conn by_state timer_conn timer_state tcp_close close_state close_poll lingers
happen-IsStranded c (segment h w) s = ground arith
happen-IsStranded c (tick w) s = ground arith
happen-IsStranded c (close w) s = ground arith
happen-IsStranded c (poll waited) s = ground arith

history-IsStranded : (es : List Event) (c : Conn) → IsStranded c → IsStranded (history c es)
unfolding history
history-IsStranded [] c s = s
history-IsStranded (e ∷ es) c s = history-IsStranded es (happen c e) (happen-IsStranded c e s)

-- A RST leaves the slot of its connection in use for good: no segment, no visit of the timer and
-- no call of `tcp_close` frees it.
pub rst_strands :
    (c : Conn) (h : Header) (w : World) (es : List Event)
    → c.used ≡ true
    → has h.flags rst ≡ true
    → IsStranded (history (rx_conn c h w).0 es)
unfolding rx_conn
rst_strands c h w es u r = history-IsStranded es _ (rw r (record { used = u; state = refl }))
