-- ===== src/Net/Tcp/Stream/Recv.antt =====
-- What a look of `tcp_recv` returns.
use plant_os.Base.{
  ℕ, ◌<◌, ◌≡◌, refl, ap, ◌∙◌, inl, inr, true, false, ◌||◌, List, [], ◌∷◌, ◌++◌, length, min, ◌==◌,
  Bool-cases, arith,
}
use plant_os.Net.Tcp.{Conn, World, ack_bit, rxbuf_read}
use plant_os.Net.Tcp.Buffer.{
  IsRing, IsRing-same, unread, unread-same, length-unread, rxbuf_read_lem,
}
use plant_os.Net.Tcp.Deliver.{send_segment-rest}
use plant_os.Net.Tcp.Stream.{Look, wait, done, recv_ack, recv_look}

-- The call waits only without bytes and before the end of the stream; otherwise it returns the
-- oldest bytes, at most `len`, and leaves the others, or none at the end of the stream.
pub data IsLook (c : Conn) (len : ℕ) : Look → Type 0 where
  waits :
      {c' : Conn}
      → unread c ≡ []
      → c.rx_fin ≡ false
      → c.closed_flag ≡ false
      → unread c' ≡ unread c
      → IsLook c len (wait c')
  ends :
      {w : World} → unread c ≡ [] → (c.rx_fin || c.closed_flag) ≡ true → IsLook c len (done [] c w)
  reads :
      {xs : List ℕ} {c' : Conn} {w : World}
      → 0 < length (unread c)
      → length xs ≡ min len (length (unread c))
      → xs ++ unread c' ≡ unread c
      → IsRing c'
      → IsLook c len (done xs c' w)

no_length {ℓ} : {A : Type ℓ} → (xs : List A) → length xs ≡ 0 → xs ≡ []
no_length [] e = refl
no_length (x ∷ xs) e = absurd (omega arith)

acked-IsLook :
    (c : Conn) (len : ℕ) (xs : List ℕ) (c' : Conn) (w : World)
    → 0 < length (unread c)
    → length xs ≡ min len (length (unread c))
    → xs ++ unread c' ≡ unread c
    → IsRing c'
    → IsLook c len (recv_ack xs c' w)
unfolding recv_ack
acked-IsLook c len [] c' w some n e r = reads some n e r
acked-IsLook c len (x ∷ xs) c' w some n e r =
    let (same, _, _) = send_segment-rest c' ack_bit c'.snd_nxt [] w in
    reads some n (ap (λ ys. (x ∷ xs) ++ ys) (unread-same c' _ same) ∙ e) (IsRing-same c' _ same r)

-- On a well-formed buffer a look of `tcp_recv` does what `IsLook` lists, in each of its cases.
pub recv_look-IsLook :
    (c : Conn) (len : ℕ) (w : World) → IsRing c → IsLook c len (recv_look c len w)
unfolding recv_look
recv_look-IsLook c len w r = elim (Bool-cases (c.rx_count == 0)) [
  | inl none_left ↦
      let empty = no_length (unread c) (ground (arith, length-unread c)) in
      elim (Bool-cases (c.rx_fin || c.closed_flag)) [
        | inl over ↦ rw (none_left, over) (ends empty over)
        | inr live ↦
            rw (none_left, live)
              (waits empty (ground arith) (ground arith) (
                unread-same c _
                  (record { rxbuf = refl; rx_head = refl; rx_tail = refl; rx_count = refl })))
      ]
  | inr waiting ↦
      let (r', e, n) = rxbuf_read_lem c len r in
      rw waiting (
        acked-IsLook c len (rxbuf_read c len).0 (rxbuf_read c len).1 w
          (ground (arith, length-unread c)) (omega (arith, n, length-unread c)) e r')
]
