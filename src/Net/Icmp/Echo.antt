-- ===== src/Net/Icmp/Echo.antt =====
-- Echo requests and replies.
use plant_os.Base.{
  ℕ, zero, suc, ◌+◌, ◌-◌, ◌%◌, ◌^◌, ◌<◌, ◌≤◌, ◌≡◌, ◌⊎◌, dec_lt, refl, sym, ap, ◌∙◌, inl, inr, Bool,
  true, false, some, List, [], ◌∷◌, ◌++◌, length, get_or, ltb, ◌==◌, arith,
}
use mathlib.Core.Option.{some-injective}
use plant_os.Net.Netbuf.{
  Netbuf, netbuf_new, netbuf_put, byte, be16, put16, write_bytes, slice, contents, net_checksum,
}
use plant_os.Net.Netbuf.Inside.{slice-fill, length-slice, get_or-slice}
use plant_os.Net.Netbuf.Checksum.{AllBytes, net_checksum-net_checksum}
use plant_os.Net.Icmp.{
  Ping, replied, copied_to_null, message, with_bytes, echo_reply, echo_received, icmp_rx,
  replied_in, icmp_wait, pattern, icmp_ping,
}

-- A new buffer with some bytes.
abbrev buffer : List ℕ → Netbuf
buffer xs = write_bytes (record netbuf_new { len = length xs }) 0 xs

with_bytes_lem :
    (n : ℕ) (xs : List ℕ)
    → length xs ≡ n
    → n ≤ 1984
    → (with_bytes n xs ≡ some (buffer xs)) × (contents (buffer xs) ≡ xs)
unfolding with_bytes netbuf_put netbuf_new
with_bytes_lem n xs e h =
    let fits : ltb 2048 (64 + 0 + n) ≡ false = ground arith in
    let short : (0 + n) % 2 ^ 16 ≡ length xs = omega (arith, e) in
    (rw (with_bytes, netbuf_put, fits, short) refl, slice-fill _ 64 xs)

message-checksum :
    (type code : ℕ) (rest : List ℕ)
    → type < 256
    → code < 256
    → AllBytes rest
    → length rest ≤ 2 ^ 13
    → net_checksum (message type code rest) ≡ 0
unfolding message
message-checksum type code rest t c b h =
    (net_checksum-net_checksum (type ∷ code ∷ []) 1 rest refl (t, (c, tt)) b (omega arith)).1

length-message : (type code : ℕ) (rest : List ℕ) → length (message type code rest) ≡ 4 + length rest
unfolding message
length-message type code rest = omega arith

slice-AllBytes : (b : ℕ → ℕ) (i n : ℕ) → ((k : ℕ) → b k < 256) → AllBytes (slice b i n)
unfolding slice
slice-AllBytes b i zero h = tt
slice-AllBytes b i (suc n) h = (h i, slice-AllBytes b (i + 1) n h)

-- A reply to a request.
record IsAnswer (nb : Netbuf) (reply : Netbuf) : Type 0 where
  pub same : contents reply ≡ message 0 (byte nb 1) (slice (byte nb) 4 (nb.len - 4))
  pub sums : net_checksum (contents reply) ≡ 0

reply_lem :
    (nb : Netbuf) (src : ℕ)
    → ((k : ℕ) → nb.raw k < 256)
    → 8 ≤ nb.len
    → nb.len ≤ 1984
    → (reply : Netbuf) × (echo_reply nb src ≡ replied reply src) × IsAnswer nb reply
unfolding echo_reply
reply_lem nb src b lo fits =
    let rest = slice (byte nb) 4 (nb.len - 4) in
    let m = message 0 (byte nb 1) rest in
    let n : length m ≡ nb.len =
      length-message 0 (byte nb 1) rest
      ∙ rw (length-slice (byte nb) 4 (nb.len - 4)) (omega arith) in
    let (made, kept) = with_bytes_lem nb.len m n fits in
    let sum =
      message-checksum 0 (byte nb 1) rest (omega arith) (b (nb.start + 1))
        (slice-AllBytes (byte nb) 4 (nb.len - 4) (λ k. b (nb.start + k)))
        (rw (length-slice (byte nb) 4 (nb.len - 4)) (omega arith)) in
    (
      buffer m,
      rw (echo_reply, made) refl,
      record { same = kept; sums = ap net_checksum kept ∙ sum },
    )

too_long :
    (nb : Netbuf) (src : ℕ) → 1984 < nb.len → nb.len < 2 ^ 16 → echo_reply nb src ≡ copied_to_null
unfolding echo_reply with_bytes netbuf_put netbuf_new
too_long nb src h h' =
    let full : ltb 2048 (64 + 0 + nb.len) ≡ true = ground arith in
    rw (echo_reply, with_bytes, netbuf_put, full) refl

-- An echo request that fits is answered by a message with the same identifier, sequence number and
-- data, whose checksum is right; one of more than 1984 bytes makes the code write to the address NULL.
pub icmp_rx-echo_reply :
    (ping : Ping) (nb : Netbuf) (src ticks : ℕ)
    → ((k : ℕ) → nb.raw k < 256)
    → 8 ≤ nb.len
    → nb.len < 2 ^ 16
    → byte nb 0 ≡ 8
    → (1984 < nb.len) × (icmp_rx ping nb src ticks true ≡ (ping, copied_to_null))
      ⊎ (nb.len ≤ 1984)
        × (reply : Netbuf) × (icmp_rx ping nb src ticks true ≡ (ping, replied reply src))
        × (contents reply ≡ message 0 (byte nb 1) (slice (byte nb) 4 (nb.len - 4)))
        × (net_checksum (contents reply) ≡ 0)
unfolding icmp_rx
icmp_rx-echo_reply ping nb src ticks b lo hi request =
    let long : ltb nb.len 8 ≡ false = ground arith in
    elim (dec_lt 1984 nb.len) [
      | yes big ↦ inl (big, rw (icmp_rx, long, request, too_long nb src big hi) refl)
      | no small ↦
          let (reply, e, a) = reply_lem nb src b lo (omega arith) in
          inr (omega arith, reply, rw (icmp_rx, long, request, e) refl, a.same, a.sums)
    ]

-- A message that answers a request has its length and its bytes from the fifth on.
answer_byte :
    (nb nb' : Netbuf) (k : ℕ)
    → contents nb' ≡ message 0 (byte nb 1) (slice (byte nb) 4 (nb.len - 4))
    → k < nb.len - 4
    → (nb'.len ≡ 4 + (nb.len - 4)) × (byte nb' (suc (suc (suc (suc k)))) ≡ byte nb (4 + k))
unfolding message
answer_byte nb nb' k e h =
    let n : nb'.len ≡ 4 + (nb.len - 4) =
      sym (length-slice nb'.raw nb'.start nb'.len)
      ∙ ap length e
      ∙ rw (length-slice (byte nb) 4 (nb.len - 4)) (omega arith) in
    (
      n,
      sym (get_or-slice nb'.raw nb'.start nb'.len (suc (suc (suc (suc k)))) (omega (arith, n)))
          ∙ ap (λ xs. get_or xs (suc (suc (suc (suc k)))) 0) e
          ∙ get_or-slice (byte nb) 4 (nb.len - 4) k h,
    )

answer_type :
    (nb nb' : Netbuf)
    → contents nb' ≡ message 0 (byte nb 1) (slice (byte nb) 4 (nb.len - 4))
    → byte nb' 0 ≡ 0
unfolding message
answer_type nb nb' e =
    sym (
      get_or-slice nb'.raw nb'.start nb'.len 0
        (omega (arith, sym (length-slice nb'.raw nb'.start nb'.len) ∙ ap length e)))
    ∙ ap (λ xs. get_or xs 0 0) e

-- What a request of `icmp_ping` holds, in whatever buffer it stands.
record IsRequest (nb : Netbuf) (seq : ℕ) : Type 0 where
  pub size : nb.len ≡ 40
  pub type_at : byte nb 0 ≡ 8
  pub seq_at : be16 (byte nb) 6 ≡ seq

-- The request.
abbrev request_bytes : ℕ → List ℕ
request_bytes seq = message 8 0 (put16 0x1234 ++ (put16 seq ++ pattern 0))

request_length : (seq : ℕ) → length (request_bytes seq) ≡ 40
unfolding message pattern slice
request_length seq = refl

icmp_ping-message :
    (ping : Ping) (seq ticks : ℕ) (request : Netbuf)
    → (icmp_ping ping seq ticks true).1 ≡ some request
    → contents request ≡ request_bytes seq
unfolding icmp_ping
icmp_ping-message ping seq ticks request made =
    let (e, kept) = with_bytes_lem 40 (request_bytes seq) (request_length seq) (omega arith) in
    ap contents (some-injective request (buffer (request_bytes seq)) (sym made ∙ e)) ∙ kept

request_bytes-IsRequest :
    (nb : Netbuf) (seq : ℕ) → seq < 2 ^ 16 → contents nb ≡ request_bytes seq → IsRequest nb seq
unfolding message
request_bytes-IsRequest nb seq bound e =
    let n : nb.len ≡ 40 =
      sym (length-slice nb.raw nb.start nb.len) ∙ ap length e ∙ request_length seq in
    let at = λ (k : ℕ) (lt : k < 40).
      sym (get_or-slice nb.raw nb.start nb.len k (omega (arith, n))) ∙ ap (λ xs. get_or xs k 0) e in
    record {
      size = n;
      type_at = at 0 (omega arith);
      seq_at = rw (at 6 (omega arith), at 7 (omega arith)) (omega arith);
    }

-- A ping and its reply. `icmp_ping` makes a request; the host at the other end answers the same bytes,
-- received into a buffer of bytes; and the answer, received again at the tick `later`, ends the wait
-- with the ticks since the request.
pub icmp_rx-icmp_ping :
    (ping peer : Ping) (seq ticks src later src' timeout : ℕ) (request nb nb' : Netbuf) (got : Bool)
    → seq < 2 ^ 16
    → ticks ≤ later
    → later < 2 ^ 32
    → (icmp_ping ping seq ticks true).1 ≡ some request
    → contents nb ≡ contents request
    → ((k : ℕ) → nb.raw k < 256)
    → contents nb' ≡ message 0 (byte nb 1) (slice (byte nb) 4 (nb.len - 4))
    → (reply : Netbuf) × (icmp_rx peer nb src ticks true ≡ (peer, replied reply src))
      × (contents reply ≡ contents nb')
      × (icmp_wait
            (icmp_rx (icmp_ping ping seq ticks true).0 nb' src' later got).0
            ticks
            later
            timeout
          ≡ replied_in (later - ticks))
unfolding icmp_rx icmp_wait icmp_ping echo_received
icmp_rx-icmp_ping ping peer seq ticks src later src' timeout request nb nb' got bound order top made
      arrives b answers =
    let r =
      request_bytes-IsRequest nb seq bound
        (arrives ∙ icmp_ping-message ping seq ticks request made) in
    let long : ltb nb.len 8 ≡ false = ground (arith, r.size) in
    let (reply, e, a) = reply_lem nb src b (omega (arith, r.size)) (omega (arith, r.size)) in
    let (n, at_6) = answer_byte nb nb' 2 answers (omega (arith, r.size)) in
    let at_7 = (answer_byte nb nb' 3 answers (omega (arith, r.size))).1 in
    let type_at = answer_type nb nb' answers in
    let long' : ltb nb'.len 8 ≡ false = ground (arith, r.size, n) in
    let seq_at : be16 (byte nb') 6 ≡ seq = rw (at_6, at_7) r.seq_at in
    let here : (seq == seq) ≡ true = ground arith in
    let rtt : (later + 2 ^ 32 - ticks) % 2 ^ 32 ≡ later - ticks = omega arith in
    (
      reply,
      rw (icmp_rx, long, r.type_at, e) refl,
      a.same ∙ sym answers,
      rw (icmp_wait, icmp_rx, long', type_at, echo_received, seq_at, icmp_ping, here, rtt) refl,
    )
