-- ===== src/Net/Tcp/Stream/Send.antt =====
-- The loop of `tcp_send`, up to the end of the data or a full buffer.
use plant_os.Base.{
  ℕ, zero, suc, ◌+◌, ◌<◌, ◌≤◌, ◌≡◌, refl, ap, ◌∙◌, ◌⊎◌, inl, inr, true, false, List, [], ◌∷◌, ◌++◌,
  length, length-take, take, drop, leb, Bool-cases, arith,
}
use mathlib.Core.Path.{subst}
use mathlib.Core.List.{append_assoc}
use plant_os.Net.Tcp.{
  Conn, World, Segment, netbuf_alloc, send_segment, txbuf_size, rxbuf_free, ack_bit, psh, add32,
}
use plant_os.Net.Tcp.Stream.{chunk_len, buffered, send_round, send_loop}
use plant_os.Net.Tcp.Stream.Window.{
  IsWindow, pending, length-drop, take-drop-append, send_round_lem,
}

-- Where the segments of a connection go, and what they acknowledge.
abbrev pub peer_of : Conn → ℕ × ℕ × ℕ × ℕ
peer_of c = (c.remote_ip, c.local_port, c.remote_port, c.rcv_nxt)

-- A segment with the bytes, the first of which has the number `seq`.
pub record IsData (peer : ℕ × ℕ × ℕ × ℕ) (seq : ℕ) (xs : List ℕ) (g : Segment) : Type 0 where
  pub to_peer : (g.dst_ip, g.src_port, g.dst_port, g.ack) ≡ peer
  pub numbered : g.seq ≡ seq
  pub flagged : g.flags ≡ ack_bit + psh
  pub carried : g.payload ≡ xs

-- One segment leaves with the bytes, unless `netbuf_alloc` returns NULL for it.
pub data Leaves (peer : ℕ × ℕ × ℕ × ℕ) (seq : ℕ) (xs : List ℕ) (w : World) : World → Type 0 where
  left :
      {w' : World} (g : Segment)
      → w'.sent ≡ g ∷ w.sent
      → IsData peer seq xs g
      → w'.netbufs ≡ (netbuf_alloc w).1.netbufs
      → Leaves peer seq xs w w'
  no_buffer :
      {w' : World}
      → (netbuf_alloc w).0 ≡ false
      → w'.sent ≡ w.sent
      → w'.netbufs ≡ (netbuf_alloc w).1.netbufs
      → Leaves peer seq xs w w'

-- The bytes leave in segments, one behind the other and numbered from `seq` on.
pub data Handed (peer : ℕ × ℕ × ℕ × ℕ) : ℕ → List ℕ → World → World → Type 0 where
  nothing : {seq : ℕ} {w : World} → Handed peer seq [] w w
  behind :
      {seq : ℕ} {xs ys : List ℕ} {w w' w'' : World}
      → Leaves peer seq xs w w'
      → Handed peer (add32 seq (length xs)) ys w' w''
      → Handed peer seq (xs ++ ys) w w''

-- The data is what was handed to `tcp_send_segment`, in order, and what is left; the former joins what
-- is under way, and nothing is left unless the buffer is full.
pub record IsSent (c : Conn) (rest : List ℕ) (w : World) (out : List ℕ × Conn × World)
    : Type 0 where
  pub window : IsWindow out.1
  pub moved : List ℕ
  pub bytes : moved ++ out.0 ≡ rest
  pub under_way : pending out.1 ≡ pending c ++ moved
  pub handed : Handed (peer_of c) c.snd_nxt moved w out.2
  pub finished : (out.0 ≡ []) ⊎ (out.1.tx_len ≡ txbuf_size)

netbuf_alloc-sent : (w : World) → (netbuf_alloc w).1.sent ≡ w.sent
unfolding netbuf_alloc
netbuf_alloc-sent w = ground arith

abbrev data_segment : Conn → ℕ → List ℕ → Segment
data_segment c seq xs = record {
  dst_ip = c.remote_ip;
  src_port = c.local_port;
  dst_port = c.remote_port;
  seq = seq;
  ack = c.rcv_nxt;
  flags = ack_bit + psh;
  window = rxbuf_free c;
  payload = xs;
}

segment-Leaves :
    (c : Conn) (seq : ℕ) (xs : List ℕ) (w : World)
    → length xs ≤ 1460
    → Leaves (peer_of c) seq xs w (send_segment c (ack_bit + psh) seq xs w).1
unfolding send_segment
segment-Leaves c seq xs w short =
    let fits : leb (64 + length xs) 2048 ≡ true = ground arith in
    elim (Bool-cases (netbuf_alloc w).0) [
      | inl got ↦
          rw (got, fits)
            (left (data_segment c seq xs) (ap (◌∷◌ (data_segment c seq xs)) (netbuf_alloc-sent w))
              (record { to_peer = refl; numbered = refl; flagged = refl; carried = refl }) refl)
      | inr lack ↦ rw lack (no_buffer lack (netbuf_alloc-sent w) refl)
    ]

module _ (c : Conn) (rest : List ℕ) (w : World) where
  round-Leaves :
      Leaves (peer_of c) c.snd_nxt (take (chunk_len c rest) rest) w (send_round c rest w).1
  unfolding send_round buffered
  round-Leaves =
      segment-Leaves (buffered c (take (chunk_len c rest) rest)) c.snd_nxt
        (take (chunk_len c rest) rest) w (omega (arith, length-take (chunk_len c rest) rest))

  round-peer_of : peer_of (send_round c rest w).0 ≡ peer_of c
  unfolding send_round send_segment buffered
  round-peer_of = ground arith

  round-snd_nxt :
      (send_round c rest w).0.snd_nxt ≡ add32 c.snd_nxt (length (take (chunk_len c rest) rest))
  unfolding send_round send_segment buffered
  round-snd_nxt = ground arith

  -- A round, and then the others.
  IsSent-round :
      {out : List ℕ × Conn × World}
      → pending (send_round c rest w).0 ≡ pending c ++ take (chunk_len c rest) rest
      → IsSent (send_round c rest w).0 (drop (chunk_len c rest) rest) (send_round c rest w).1 out
      → IsSent c rest w out
  IsSent-round {out} e s =
      let xs = take (chunk_len c rest) rest in
      let later : Handed (peer_of c) (add32 c.snd_nxt (length xs)) s.moved (send_round c rest w).1
          out.2 =
        subst (λ p. Handed p (add32 c.snd_nxt (length xs)) s.moved (send_round c rest w).1 out.2)
          round-peer_of
          (subst
            (λ seq.
              Handed (peer_of (send_round c rest w).0) seq s.moved (send_round c rest w).1 out.2)
            round-snd_nxt s.handed) in
      record {
        window = s.window;
        moved = xs ++ s.moved;
        bytes =
            append_assoc xs s.moved out.0
            ∙ ap (λ ys. xs ++ ys) s.bytes
            ∙ take-drop-append (chunk_len c rest) rest;
        under_way = s.under_way ∙ ap (λ ys. ys ++ s.moved) e ∙ append_assoc (pending c) xs s.moved;
        handed = behind round-Leaves later;
        finished = s.finished;
      }

append-nil : (xs : List ℕ) → xs ≡ xs ++ []
append-nil [] = refl
append-nil (x ∷ xs) = ap (λ l. x ∷ l) (append-nil xs)

-- With one round more than there are bytes, the loop of `tcp_send` sends all the data, or as much as
-- fills the transmit buffer: these bytes join those under way behind them, and are handed in order, in
-- segments with their sequence numbers, to the peer; a segment for which there is no buffer is left out.
pub send_loop-IsSent :
    (n : ℕ) (c : Conn) (rest : List ℕ) (w : World)
    → IsWindow c
    → length rest < n
    → IsSent c rest w (send_loop n c rest w)
unfolding send_loop
send_loop-IsSent zero c rest w v h = absurd (omega arith)
send_loop-IsSent (suc n) c [] w v h = record {
  window = v;
  moved = [];
  bytes = refl;
  under_way = append-nil (pending c);
  handed = nothing;
  finished = inl refl;
}
send_loop-IsSent (suc n) c (x ∷ xs) w v h = elim (Bool-cases (leb txbuf_size c.tx_len)) [
  | inl full ↦ rw full (record {
    window = v;
    moved = [];
    bytes = refl;
    under_way = append-nil (pending c);
    handed = nothing;
    finished = inr (ground (arith, v.tx_in));
  })
  | inr room ↦
      let (v', _, e) = send_round_lem c (x ∷ xs) w v in
      let k = chunk_len c (x ∷ xs) in
      let pos : 0 < k = ground arith in
      let less : length (drop k (x ∷ xs)) < n = omega (arith, length-drop k (x ∷ xs), pos) in
      rw room (
        IsSent-round c (x ∷ xs) w e (
          send_loop-IsSent n (send_round c (x ∷ xs) w).0 (drop k (x ∷ xs))
            (send_round c (x ∷ xs) w).1 v' less))
]
