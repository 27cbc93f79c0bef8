-- ===== src/Net/Icmp/Tests.antt =====
-- A ping and its reply.
use plant_os.Base.{
  ℕ, ◌+◌, ◌<◌, ◌≤◌, ◌≡◌, ◌⊎◌, inl, inr, refl, Bool, true, false, ◌&&◌, some, List, [], ◌∷◌, length,
  ltb, ◌==◌, if◌then◌else◌, Bool-cases, arith,
}
use plant_os.Net.Netbuf.{Netbuf, netbuf_new, netbuf_put, byte, fill, slice, contents, net_checksum}
use plant_os.Net.Netbuf.Inside.{slice-fill}
use plant_os.Net.Netbuf.Checksum.{AllBytes}
use plant_os.Net.Icmp.{
  Ping, replied, copied_to_null, message, with_bytes, icmp_rx, replied_in, icmp_wait, pattern,
  icmp_ping,
}
use plant_os.Net.Icmp.Echo.{icmp_rx-echo_reply, icmp_rx-icmp_ping}

abbrev idle : Ping
idle = record { received = false; expect_seq = 0; rtt_start = 0; rtt = 0 }

-- An echo request of `n` bytes.
abbrev request_of : ℕ → Netbuf
request_of n = record { raw = λ i. if i == 64 then 8 else 5; start = 64; len = n }

request_of-bytes : (n k : ℕ) → (request_of n).raw k < 256
request_of-bytes n k = ground arith

icmp_rx-echo_reply_example :
    (1984 < 1985) × (icmp_rx idle (request_of 1985) 1 0 true ≡ (idle, copied_to_null))
    ⊎ (1985 ≤ 1984)
      × (reply : Netbuf) × (icmp_rx idle (request_of 1985) 1 0 true ≡ (idle, replied reply 1))
      × (contents reply ≡ message 0 5 (slice (byte (request_of 1985)) 4 1981))
      × (net_checksum (contents reply) ≡ 0)
icmp_rx-echo_reply_example =
    icmp_rx-echo_reply idle (request_of 1985) 1 0 (request_of-bytes 1985) (omega arith)
      (omega arith) refl

-- Bytes in memory.
all_lt : List ℕ → Bool
all_lt [] = true
all_lt (x ∷ xs) = ltb x 256 && all_lt xs

all_lt-AllBytes : (xs : List ℕ) → all_lt xs ≡ true → AllBytes xs
unfolding all_lt
all_lt-AllBytes [] e = tt
all_lt-AllBytes (x ∷ xs) e = (ground arith, all_lt-AllBytes xs (ground arith))

fill-bytes : (i : ℕ) (xs : List ℕ) (k : ℕ) → AllBytes xs → fill (λ j. 0) i xs k < 256
unfolding fill
fill-bytes i [] k b = omega arith
fill-bytes i (x ∷ xs) k (bx, b) = elim (Bool-cases (k == i)) [
  | inl e ↦ rw e bx
  | inr e ↦ rw e (fill-bytes (i + 1) xs k b)
]

-- The request with the number 3, and the answer to it, in buffers that hold nothing else.
abbrev request_bytes : List ℕ
request_bytes = message 8 0 (0x12 ∷ 0x34 ∷ 0 ∷ 3 ∷ pattern 0)

abbrev request : Netbuf
request = record { raw = fill (λ j. 0) 64 request_bytes; start = 64; len = 40 }

abbrev answer_bytes : List ℕ
answer_bytes = message 0 (byte request 1) (slice (byte request) 4 36)

abbrev answer : Netbuf
answer = record { raw = fill (λ j. 0) 64 answer_bytes; start = 64; len = length answer_bytes }

sent : (icmp_ping idle 3 100 true).1 ≡ some request
unfolding icmp_ping with_bytes netbuf_put netbuf_new
sent = refl

request-AllBytes : AllBytes request_bytes
unfolding message pattern slice all_lt plant_os.Net.Netbuf.net_checksum plant_os.Net.Netbuf.sum16
    plant_os.Net.Netbuf.fold16
request-AllBytes = all_lt-AllBytes request_bytes refl

icmp_rx-icmp_ping_example :
    (reply : Netbuf) × (icmp_rx idle request 1 100 true ≡ (idle, replied reply 1))
    × (contents reply ≡ contents answer)
    × (icmp_wait (icmp_rx (icmp_ping idle 3 100 true).0 answer 2 130 true).0 100 130 50
        ≡ replied_in 30)
icmp_rx-icmp_ping_example =
    icmp_rx-icmp_ping idle idle 3 100 1 130 2 50 request request answer true (omega arith)
      (omega arith) (omega arith) sent refl (λ k. fill-bytes 64 request_bytes k request-AllBytes)
      (slice-fill (λ j. 0) 64 answer_bytes)
