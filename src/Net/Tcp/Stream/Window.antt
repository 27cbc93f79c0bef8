-- ===== src/Net/Tcp/Stream/Window.antt =====
-- The bytes that are sent and not acknowledged: how `tcp_send` adds to them, and how an ACK takes
-- them away.
use plant_os.Base.{
  ℕ, zero, suc, ◌+◌, ◌-◌, ◌%◌, ◌^◌, ◌<◌, ◌≤◌, ◌≡◌, ◌≢◌, refl, sym, ap, ◌∙◌, ◌⊎◌, inl, inr, true,
  false, ◌&&◌, List, [], ◌∷◌, ◌++◌, length, length-append, length-take, take, take-nil, drop, ltb,
  leb, Bool-cases, arith,
}
use plant_os.Net.Tcp.{
  Conn, World, txbuf_size, psh, ack_bit, has, add32, sub32, rto_init, seq_lt, seq_le, send_segment,
}
use plant_os.Net.Tcp.Rx.{Header, drop_acked, rx_ack}
use plant_os.Net.Tcp.Stream.{chunk_len, buffered, send_round}

module _ {ℓ} {A : Type ℓ} where
  pub length-drop : (n : ℕ) (xs : List A) → length (drop n xs) ≡ length xs - n
  length-drop zero xs = omega arith
  length-drop (suc n) [] = omega arith
  length-drop (suc n) (x ∷ xs) = omega (arith, length-drop n xs)

  take-append : (n : ℕ) (xs ys : List A) → n ≡ length xs → take n (xs ++ ys) ≡ xs
  take-append zero [] ys e = refl
  take-append zero (x ∷ xs) ys e = absurd (omega arith)
  take-append (suc n) [] ys e = absurd (omega arith)
  take-append (suc n) (x ∷ xs) ys e = ap (◌∷◌ x) (take-append n xs ys (omega arith))

  pub take-drop-append : (n : ℕ) (xs : List A) → take n xs ++ drop n xs ≡ xs
  take-drop-append zero xs = refl
  take-drop-append (suc n) [] = refl
  take-drop-append (suc n) (x ∷ xs) = ap (◌∷◌ x) (take-drop-append n xs)

  take-drop : (m n : ℕ) (xs : List A) → take m (drop n xs) ≡ drop n (take (n + m) xs)
  take-drop m zero xs = ap (λ k. take k xs) (omega arith)
  take-drop m (suc n) [] = rw (take-nil (suc n + m), take-nil m) refl
  take-drop m (suc n) (x ∷ xs) =
      take-drop m n xs ∙ ap (λ k. drop (suc n) (take k (x ∷ xs))) {x = suc (n + m)} (omega arith)

-- `tx_len` bytes of the buffer are under way, and the two sequence numbers say so.
pub record IsWindow (c : Conn) : Type 0 where
  pub storage : length c.txbuf ≡ txbuf_size
  pub tx_in : c.tx_len ≤ txbuf_size
  pub una_in : c.snd_una < 2 ^ 32
  pub nxt_at : c.snd_nxt ≡ add32 c.snd_una c.tx_len

-- The bytes sent and not acknowledged.
abbrev pub pending : Conn → List ℕ
pending c = take c.tx_len c.txbuf

send_segment-tx :
    (c : Conn) (flags seq : ℕ) (xs : List ℕ) (w : World)
    → let c' = (send_segment c flags seq xs w).0 in
      (c'.txbuf ≡ c.txbuf)
      × (c'.tx_len ≡ c.tx_len)
      × (c'.snd_una ≡ c.snd_una)
      × (c'.snd_nxt ≡ c.snd_nxt)
unfolding send_segment
send_segment-tx c flags seq xs w = ground arith

-- `xs` joins the bytes under way.
buffered_lem :
    (c : Conn) (xs : List ℕ)
    → IsWindow c
    → length xs ≤ txbuf_size - c.tx_len
    → (length (buffered c xs).txbuf ≡ txbuf_size)
      × ((buffered c xs).tx_len ≡ c.tx_len + length xs)
      × (pending (buffered c xs) ≡ pending c ++ xs)
unfolding buffered
buffered_lem c xs v h =
    let head : length (take c.tx_len c.txbuf) ≡ c.tx_len =
      omega (arith, length-take c.tx_len c.txbuf, v.storage, v.tx_in) in
    let n : (c.tx_len + length xs) % 2 ^ 16 ≡ c.tx_len + length xs = omega (arith, v.tx_in) in
    let tail = drop (c.tx_len + length xs) c.txbuf in
    let storage : length (take c.tx_len c.txbuf ++ xs ++ tail) ≡ txbuf_size = omega (
      arith,
      head,
      length-append (take c.tx_len c.txbuf ++ xs) tail,
      length-append (take c.tx_len c.txbuf) xs,
      length-drop (c.tx_len + length xs) c.txbuf,
      v.storage,
      v.tx_in,
    ) in
    let front : take (c.tx_len + length xs) (take c.tx_len c.txbuf ++ xs ++ tail)
        ≡ pending c ++ xs =
      take-append (c.tx_len + length xs) (take c.tx_len c.txbuf ++ xs) tail
        (omega (arith, head, length-append (take c.tx_len c.txbuf) xs)) in
    (storage, n, rw n front)

buffered-seq :
    (c : Conn) (xs : List ℕ)
    → ((buffered c xs).snd_una ≡ c.snd_una) × ((buffered c xs).snd_nxt ≡ c.snd_nxt)
unfolding buffered
buffered-seq c xs = (refl, refl)

take-chunk : (c : Conn) (rest : List ℕ) → length (take (chunk_len c rest) rest) ≡ chunk_len c rest
take-chunk c rest = omega (arith, length-take (chunk_len c rest) rest)

-- One round sends the next `chunk_len` bytes.
pub send_round_lem :
    (c : Conn) (rest : List ℕ) (w : World)
    → IsWindow c
    → let c' = (send_round c rest w).0 in
      IsWindow c'
      × (c'.tx_len ≡ c.tx_len + chunk_len c rest)
      × (pending c' ≡ pending c ++ take (chunk_len c rest) rest)
unfolding send_round
send_round_lem c rest w v =
    let xs = take (chunk_len c rest) rest in
    let fits : length xs ≤ txbuf_size - c.tx_len = omega (arith, take-chunk c rest) in
    let (st, n, p) = buffered_lem c xs v fits in
    let (tb, tl, un, nx) = send_segment-tx (buffered c xs) (ack_bit + psh) c.snd_nxt xs w in
    let (un', nx') = buffered-seq c xs in
    let same : pending (send_round c rest w).0 ≡ pending (buffered c xs) = rw (tl, tb) refl in
    (
      record {
        storage = ap length tb ∙ st;
        tx_in = omega (arith, tl, n, v.tx_in, fits);
        una_in = omega (arith, un, un', v.una_in);
        nxt_at = omega (arith, un, un', nx, nx', tl, n, v.nxt_at);
      },
      omega (arith, tl, n, take-chunk c rest),
      same ∙ p,
    )

drop_acked-IsWindow :
    (c : Conn) (n : ℕ)
    → length c.txbuf ≡ txbuf_size
    → c.tx_len ≤ txbuf_size
    → n ≤ c.tx_len
    → 0 < n
    → c.snd_una < 2 ^ 32
    → c.snd_nxt ≡ add32 c.snd_una (c.tx_len - n)
    → IsWindow (drop_acked c n)
      × (pending (drop_acked c n) ≡ drop n (pending c))
      × ((drop_acked c n).snd_una ≡ c.snd_una)
unfolding drop_acked
drop_acked-IsWindow c n st tx le pos una nxt =
    let test : (ltb 0 n && leb n c.tx_len) ≡ true = ground arith in
    let front = take (c.tx_len - n) (drop n c.txbuf) in
    let size : length front ≡ c.tx_len - n =
      omega (arith, length-take (c.tx_len - n) (drop n c.txbuf), length-drop n c.txbuf) in
    let kept : take (c.tx_len - n) (front ++ drop (c.tx_len - n) c.txbuf) ≡ drop n (pending c) =
      take-append (c.tx_len - n) front (drop (c.tx_len - n) c.txbuf) (omega (arith, size))
      ∙ take-drop (c.tx_len - n) n c.txbuf
      ∙ ap (λ k. drop n (take k c.txbuf)) (omega arith) in
    rw test (
      record {
        storage = omega (
          arith,
          size,
          length-append front (drop (c.tx_len - n) c.txbuf),
          length-drop (c.tx_len - n) c.txbuf,
        );
        tx_in = omega arith;
        una_in = una;
        nxt_at = nxt;
      },
      kept,
      refl,
    )

-- The two comparisons of `rx_ack` say that the ACK is of bytes under way.
new-ack :
    (c : Conn) (ack : ℕ)
    → IsWindow c
    → ack < 2 ^ 32
    → sub32 ack c.snd_una ≢ 2 ^ 31
    → (seq_lt c.snd_una ack && seq_le ack c.snd_nxt) ≡ true
    → (0 < sub32 ack c.snd_una) × (sub32 ack c.snd_una ≤ c.tx_len)
unfolding seq_lt seq_le
new-ack c ack v small edge e = (ground arith, ground arith)

old-ack :
    (c : Conn) (ack : ℕ)
    → IsWindow c
    → ack < 2 ^ 32
    → (seq_lt c.snd_una ack && seq_le ack c.snd_nxt) ≡ false
    → sub32 ack c.snd_una ≤ c.tx_len
    → (c.snd_una ≡ ack) × (sub32 ack c.snd_una ≡ 0)
unfolding seq_lt seq_le
old-ack c ack v small e le = ground arith

-- An ACK of `n` bytes more than before, by the sequence numbers, where `n` is not 2^31: if so many are
-- under way, `rx_ack` takes them from the front, and for a positive `n` it also takes over the window
-- and resets the retransmission; a duplicate ACK, with `n` 0, or one of more bytes changes nothing.
pub rx_ack_lem :
    (c : Conn) (h : Header)
    → IsWindow c
    → h.ack < 2 ^ 32
    → has h.flags ack_bit ≡ true
    → sub32 h.ack c.snd_una ≢ 2 ^ 31
    → let c' = rx_ack c h in
      let n = sub32 h.ack c.snd_una in
      IsWindow c'
      × ((n ≤ c.tx_len) → (c'.snd_una ≡ h.ack) × (pending c' ≡ drop n (pending c)))
      × (0 < n → n ≤ c.tx_len → (c'.snd_wnd ≡ h.window) × (c'.retx_count ≡ 0) × (c'.rto ≡ rto_init))
      × ((n ≡ 0) ⊎ (c.tx_len < n) → c' ≡ c)
unfolding rx_ack drop_acked
rx_ack_lem c h v small a edge =
    elim (Bool-cases (seq_lt c.snd_una h.ack && seq_le h.ack c.snd_nxt)) [
      | inl new ↦
          let (pos, le) = new-ack c h.ack v small edge new in
          let (v', p, un) =
            drop_acked-IsWindow
              (record c { snd_una = h.ack; snd_wnd = h.window; retx_count = 0; rto = rto_init })
              (sub32 h.ack c.snd_una) v.storage v.tx_in le pos small
              (omega (arith, v.nxt_at, v.una_in, v.tx_in)) in
          let test : (ltb 0 (sub32 h.ack c.snd_una) && leb (sub32 h.ack c.snd_una) c.tx_len)
              ≡ true =
            ground (arith, pos, le) in
          rw (a, new)
            (
              v',
              (λ _. (un, p)),
              (λ _ _. rw test (refl, refl, refl)),
              λ out. absurd (elim out [ inl z ↦ omega (arith, pos) | inr lt ↦ omega (arith, le) ]),
            )
      | inr old ↦
          rw (a, old)
            (
              v,
              (λ le.
                  let (same, z) = old-ack c h.ack v small old le in
                  (same, ap (λ k. drop k (pending c)) (sym z))),
              (λ pos le.
                  let (_, z) = old-ack c h.ack v small old le in absurd (omega (arith, z, pos))),
              λ _. refl,
            )
    ]
