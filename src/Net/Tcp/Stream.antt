-- ===== src/Net/Tcp/Stream.antt =====
-- `tcp_send` and `tcp_recv` of net/tcp.c, between the interrupts that they wait for.
pub mod Window
pub mod Send
pub mod Recv
mod Tests
use plant_os.Base.{
  ℕ, zero, suc, ◌+◌, ◌-◌, ◌%◌, ◌^◌, Bool, true, false, ◌||◌, Option, none, some, List, [], ◌∷◌,
  ◌++◌, length, take, drop, min, ltb, leb, ◌==◌, if◌then◌else◌,
}
use plant_os.Net.Tcp.{Conn, World, txbuf_size, psh, ack_bit, add32, rxbuf_read, send_segment}

-- `chunk`: what is left, at most the room in the buffer and 1460 bytes.
abbrev pub chunk_len : Conn → List ℕ → ℕ
chunk_len c rest = min (min (length rest) (txbuf_size - c.tx_len)) 1460

-- `memcpy(c->txbuf + c->tx_len, p + sent, chunk); c->tx_len += chunk;`
pub buffered : Conn → List ℕ → Conn
buffered c xs = record c {
  txbuf = take c.tx_len c.txbuf ++ xs ++ drop (c.tx_len + length xs) c.txbuf;
  tx_len = (c.tx_len + length xs) % 2 ^ 16;
}

-- One round of the outer loop of `tcp_send`, when the buffer has room; `rest` is the data behind
-- `sent`. The bytes sent are those just stored.
pub send_round : Conn → List ℕ → World → Conn × World
send_round c rest w =
    let xs = take (chunk_len c rest) rest in
    let (c', w') = send_segment (buffered c xs) (ack_bit + psh) c.snd_nxt xs w in
    (record c' { snd_nxt = add32 c'.snd_nxt (length xs) }, w')

-- At most `n` rounds: until the data is sent, or the buffer is full, where the code waits for room
-- or, on a closed connection, returns -1. The data that is left, with the connection.
pub send_loop : ℕ → Conn → List ℕ → World → List ℕ × Conn × World
send_loop zero c rest w = (rest, c, w)
send_loop (suc n) c [] w = ([], c, w)
send_loop (suc n) c (x ∷ xs) w =
    let (c', w') = send_round c (x ∷ xs) w in
    let more = send_loop n c' (drop (chunk_len c (x ∷ xs)) (x ∷ xs)) w' in
    if leb txbuf_size c.tx_len then (x ∷ xs, c, w) else more

-- A look of `tcp_recv`: the call waits, or returns bytes; no bytes stand for the result 0.
pub data Look : Type 0 where
  wait : Conn → Look
  done : List ℕ → Conn → World → Look

-- `tcp_recv` after the copy of `xs`, the bytes that `rxbuf_read` returned.
pub recv_ack : List ℕ → Conn → World → Look
recv_ack [] c w = done [] c w
recv_ack (x ∷ xs) c w = let (c', w') = send_segment c ack_bit c.snd_nxt [] w in done (x ∷ xs) c' w'

pub recv_look : Conn → ℕ → World → Look
recv_look c len w =
    let (xs, c') = rxbuf_read c len in
    if c.rx_count == 0
    then (if c.rx_fin || c.closed_flag then done [] c w else wait (record c { data_ready = false }))
    else recv_ack xs c' w
