-- ===== src/Net/Udp/Bind.antt =====
-- `udp_bind`.
use plant_os.Base.{
  ℕ, ◌<◌, ◌≡◌, ◌≢◌, refl, sym, ap, ◌∙◌, inl, inr, true, false, not, Option, none, some, List, [],
  length, length-replicate, length-set, get_or, get_or-set, set, find_index, find_index-cases, ◌==◌,
  if◌then◌else◌, ℕ_discrete, arith,
}
use plant_os.Net.Udp.{UdpSocket, udp_rxbuf_size, cleared, bound_to, udp_bind}
use plant_os.Net.Udp.Buffer.{IsRing, unread}

abbrev socket : List UdpSocket → ℕ → UdpSocket
socket sockets i = get_or sockets i cleared

-- A result: -1 with a reason and nothing changed, or a free socket that the port leads to from now on.
pub data Bound (sockets : List UdpSocket) (port : ℕ) : List UdpSocket × Option ℕ → Type 0 where
  taken :
      (i : ℕ)
      → i < length sockets
      → bound_to port (socket sockets i) ≡ true
      → Bound sockets port (sockets, none)
  all_used :
      ((i : ℕ) → i < length sockets → (socket sockets i).used ≡ true)
      → Bound sockets port (sockets, none)
  bound :
      (i : ℕ) (sockets' : List UdpSocket)
      → (socket sockets i).used ≡ false
      → find_index (bound_to port) sockets' ≡ some i
      → unread (socket sockets' i) ≡ []
      → IsRing (socket sockets' i)
      → ((j : ℕ) → j ≢ i → socket sockets' j ≡ socket sockets j)
      → Bound sockets port (sockets', some i)

pub cleared-IsRing :
    (port : ℕ)
    → IsRing (record cleared { used = true; local_port = port })
      × (unread (record cleared { used = true; local_port = port }) ≡ [])
unfolding cleared unread
cleared-IsRing port = (
  record {
    storage = length-replicate {A = ℕ} udp_rxbuf_size 0;
    tail_in = omega arith;
    count_in = omega arith;
    head_at = omega arith;
  },
  refl,
)

-- A free socket taken for a port that no socket had.
module _ (sockets : List UdpSocket) (port i : ℕ) (lt : i < length sockets) where
  abbrev fresh : UdpSocket
  fresh = record cleared { used = true; local_port = port }

  fresh_at : (j : ℕ) → socket (set sockets i fresh) j ≡ (if i == j then fresh else socket sockets j)
  fresh_at j = get_or-set sockets i j fresh cleared lt

  fresh_found :
      ((j : ℕ) → j < length sockets → bound_to port (socket sockets j) ≡ false)
      → find_index (bound_to port) (set sockets i fresh) ≡ some i
  fresh_found free = elim (find_index-cases (bound_to port) cleared (set sockets i fresh)) [
    | inl (_, n) ↦ absurd (ground (arith, n i, length-set sockets i fresh, fresh_at i))
    | inr (k, e, f) ↦ elim (ℕ_discrete i k) [
      | yes same ↦ e ∙ ap some (sym same)
      | no other ↦ absurd (
          ground
            (arith, free k, f.in_range, f.passes, length-set sockets i fresh, fresh_at k, other))
    ]
  ]

  fresh-Bound :
      (socket sockets i).used ≡ false
      → ((j : ℕ) → j < length sockets → bound_to port (socket sockets j) ≡ false)
      → Bound sockets port (set sockets i fresh, some i)
  fresh-Bound unused free =
      let here : socket (set sockets i fresh) i ≡ fresh = ground (arith, fresh_at i) in
      bound i (set sockets i fresh) unused (fresh_found free) (rw here (cleared-IsRing port).1)
        (rw here (cleared-IsRing port).0) (λ j other. ground (arith, fresh_at j, other))

-- `udp_bind` returns -1 and changes nothing because a used socket has the port or because all are used;
-- otherwise a socket that was free, to which the port leads then, with an empty buffer, and every other
-- socket is what it was.
pub udp_bind-Bound :
    (sockets : List UdpSocket) (port : ℕ) → Bound sockets port (udp_bind sockets port)
unfolding udp_bind
udp_bind-Bound sockets port = elim (find_index-cases (bound_to port) cleared sockets) [
  | inr (i, e, f) ↦ rw (udp_bind, e) (taken i f.in_range f.passes)
  | inl (e, free) ↦ elim (find_index-cases (λ s. not s.used) cleared sockets) [
    | inl (e', full) ↦ rw (udp_bind, e, e') (all_used (λ i lt. ground (arith, full i lt)))
    | inr (i, e', f) ↦
        rw (udp_bind, e, e') (fresh-Bound sockets port i f.in_range (ground (arith, f.passes)) free)
  ]
]
