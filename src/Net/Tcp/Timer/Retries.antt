-- ===== src/Net/Tcp/Timer/Retries.antt =====
-- Retransmission is paced and gives up.
use plant_os.Base.{
  ℕ, ◌+◌, ◌≤◌, ◌<◌, ◌≡◌, refl, inl, inr, ◌⊎◌, true, false, List, [], ◌∷◌, take, length, Bool-cases,
  ltb, arith,
}
use plant_os.Net.Tcp.{
  TcpState, syn_sent, syn_received, closed, Conn, World, rto_max, max_retries, sub32, send_segment,
  free_conn, syn, psh, ack_bit, time_wait, established, fin_wait_1,
}
use plant_os.Net.Tcp.Timer.{resend_len, backoff, retry, timer_data, timer_state, timer_conn}

-- The timeout and the count of tries are within their limits.
pub record IsPaced (c : Conn) : Type 0 where
  pub rto_in : c.rto ≤ rto_max
  pub count_in : c.retx_count ≤ max_retries

send_segment-pace :
    (c : Conn) (flags seq : ℕ) (xs : List ℕ) (w : World)
    → ((send_segment c flags seq xs w).0.rto ≡ c.rto)
      × ((send_segment c flags seq xs w).0.retx_count ≡ c.retx_count)
      × ((send_segment c flags seq xs w).0.state ≡ c.state)
      × ((send_segment c flags seq xs w).0.used ≡ c.used)
unfolding send_segment
send_segment-pace c flags seq xs w = ground arith

retry-IsPaced :
    (c : Conn) (w : World) (flags : ℕ) (seq : Conn → ℕ) (xs : Conn → List ℕ)
    → IsPaced c
    → IsPaced (retry c w (λ d. send_segment d flags (seq d) (xs d) w)).0
unfolding retry backoff free_conn
retry-IsPaced c w flags seq xs p =
    ground (arith, send_segment-pace (backoff c) flags (seq (backoff c)) (xs (backoff c)) w)

timer_data-IsPaced : (c : Conn) (w : World) → IsPaced c → IsPaced (timer_data c w).0
unfolding timer_data
timer_data-IsPaced c w p =
    ground (
      arith,
      retry-IsPaced c w (ack_bit + psh) (λ d. d.snd_una) (λ d. take (resend_len d) d.txbuf) p,
    )

timer_state-IsPaced :
    (s : TcpState) (c : Conn) (w : World) → IsPaced c → IsPaced (timer_state s c w).0
unfolding timer_state free_conn
timer_state-IsPaced time_wait c w p = ground arith
timer_state-IsPaced syn_sent c w p = retry-IsPaced c w syn (λ d. d.iss) (λ d. []) p
timer_state-IsPaced syn_received c w p = retry-IsPaced c w (syn + ack_bit) (λ d. d.iss) (λ d. []) p
timer_state-IsPaced established c w p = timer_data-IsPaced c w p
timer_state-IsPaced fin_wait_1 c w p = timer_data-IsPaced c w p
timer_state-IsPaced _ c w p = p

-- The timer keeps the timeout at most TCP_RTO_MAX and the count of tries at most TCP_MAX_RETRIES.
pub timer_conn-IsPaced : (c : Conn) (w : World) → IsPaced c → IsPaced (timer_conn c w).0
unfolding timer_conn
timer_conn-IsPaced c w p = ground (arith, timer_state-IsPaced c.state c w p)

-- The connection after a visit of the timer at each of the given moments.
pub visits : Conn → List World → Conn
visits c [] = c
visits c (w ∷ ws) = visits (timer_conn c w).0 ws

-- At each of them the timeout of the connection has run out.
abbrev pub AllDue : Conn → List World → Type 0
AllDue c [] = Unit {0}
AllDue c (w ∷ ws) = (c.rto ≤ sub32 w.now c.retx_time) × AllDue (timer_conn c w).0 ws

-- The two states of a handshake that waits for the other side.
abbrev pub IsHandshake : TcpState → Type 0
IsHandshake s = (s ≡ syn_sent) ⊎ (s ≡ syn_received)

visit-last :
    (c : Conn) (w : World)
    → c.used ≡ true
    → IsHandshake c.state
    → c.rto ≤ sub32 w.now c.retx_time
    → max_retries ≤ c.retx_count
    → (timer_conn c w).0 ≡ free_conn c
unfolding timer_conn timer_state retry
visit-last c w u (inl s) due h = ground arith
visit-last c w u (inr s) due h = ground arith

visit-more :
    (c : Conn) (w : World)
    → c.used ≡ true
    → IsHandshake c.state
    → c.rto ≤ sub32 w.now c.retx_time
    → c.retx_count < max_retries
    → let d = (timer_conn c w).0 in
      (d.used ≡ true) × (d.state ≡ c.state) × (d.retx_count ≡ c.retx_count + 1)
unfolding timer_conn timer_state retry backoff
visit-more c w u (inl s) due h = ground (arith, send_segment-pace (backoff c) syn c.iss [] w)
visit-more c w u (inr s) due h =
    ground (arith, send_segment-pace (backoff c) (syn + ack_bit) c.iss [] w)

visits_none : (c : Conn) (ws : List World) → length ws ≡ 0 → visits c ws ≡ c
unfolding visits
visits_none c [] e = refl
visits_none c (w ∷ ws) e = absurd (omega arith)

-- A handshake that nobody answers is given up: the slot is free after the sixth timeout.
pub visits-give_up :
    (ws : List World) (c : Conn)
    → c.used ≡ true
    → IsHandshake c.state
    → c.retx_count + length ws ≡ max_retries + 1
    → c.retx_count ≤ max_retries
    → AllDue c ws
    → ((visits c ws).used ≡ false)
      × ((visits c ws).state ≡ closed)
      × ((visits c ws).closed_flag ≡ true)
unfolding visits free_conn
visits-give_up [] c u s n h due = absurd (omega arith)
visits-give_up (w ∷ ws) c u s n h (due, later) = elim (Bool-cases (ltb c.retx_count max_retries)) [
  | inl more ↦
      let (u', s', n') = visit-more c w u s due (ground arith) in
      visits-give_up ws (timer_conn c w).0 u' (rw s' s) (omega (arith, n, n')) (ground (arith, n'))
        later
  | inr last ↦
      rw (visits_none _ ws (ground (arith, n)), visit-last c w u s due (ground arith))
        (refl, refl, refl)
]
