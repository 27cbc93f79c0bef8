-- ===== src/Net/Dns/Tests.antt =====
-- Names and datagrams, run.
use plant_os.Base.{
  ℕ, ◌+◌, ◌≤◌, ◌≡◌, ◌≢◌, refl, true, false, some, List, [], ◌∷◌, length, get_or, ltb, if◌then◌else◌,
  arith,
}
use plant_os.Net.Dns.{
  blank, dns_encode_name, encode_loop, until_dot, skip_dot, Skip, at, starved, dns_skip_name,
  Pending, dns_process_reply, parse_ip, join_ip, is_ip,
}
use plant_os.Net.Dns.Spelling.{dotted, spelled}
use plant_os.Net.Dns.Names.{labels_ok, Holds, dns_skip_name-dns_encode_name}
use plant_os.Net.Dns.Reply.{dns_process_reply-SameBelow}

-- "a.bc"
abbrev name : List ℕ
name = 97 ∷ 46 ∷ 98 ∷ 99 ∷ []

encoded : dns_encode_name name 64 ≡ some (1 ∷ 97 ∷ 2 ∷ 98 ∷ 99 ∷ 0 ∷ [])
unfolding dns_encode_name encode_loop until_dot skip_dot
encoded = refl

-- "a..bc": the empty label reads as the end of the name.
encoded_early_end :
    dns_encode_name (97 ∷ 46 ∷ 46 ∷ 98 ∷ []) 64 ≡ some (1 ∷ 97 ∷ 0 ∷ 1 ∷ 98 ∷ 0 ∷ [])
unfolding dns_encode_name encode_loop until_dot skip_dot
encoded_early_end = refl

-- "1.2.3.4"
digits :
    parse_ip (49 ∷ 46 ∷ 50 ∷ 46 ∷ 51 ∷ 46 ∷ 52 ∷ []) 0 (0 ∷ 0 ∷ 0 ∷ 0 ∷ []) ≡ 1 ∷ 2 ∷ 3 ∷ 4 ∷ []
unfolding parse_ip
digits = refl

dns_skip_name-dns_encode_name_example :
    (out : List ℕ) × (dns_encode_name name 64 ≡ some out)
    × (length out ≤ 64)
    × (spelled (length out) out ≡ dotted name)
    × ((byte : ℕ → ℕ) (off len : ℕ)
        → off + length out ≤ len
        → Holds byte off out
        → dns_skip_name byte off len ≡ at (off + length out))
unfolding labels_ok
dns_skip_name-dns_encode_name_example = dns_skip_name-dns_encode_name name 64 refl (omega arith)

-- A reply with a question and an answer, and other bytes behind it.
abbrev datagram : List ℕ
datagram =
    0 ∷ 7 ∷ 0x81 ∷ 0x80 ∷ 0 ∷ 1 ∷ 0 ∷ 1 ∷ 0 ∷ 0 ∷ 0 ∷ 0 ∷ 1 ∷ 97 ∷ 0 ∷ 0 ∷ 1 ∷ 0 ∷ 1 ∷ 0xc0 ∷ 12 ∷ 0
    ∷ 1 ∷ 0 ∷ 1 ∷ 0 ∷ 0 ∷ 0 ∷ 9 ∷ 0 ∷ 4 ∷ 10 ∷ 0 ∷ 2 ∷ 2 ∷ []

abbrev waiting : Pending
waiting = record { received = false; id = 0; resolved = 0; rcode = 255 }

resolved : (dns_process_reply waiting (λ i. get_or datagram i 0) 35).resolved ≡ 0x0a000202
unfolding dns_process_reply plant_os.Net.Dns.reply plant_os.Net.Dns.answers
    plant_os.Net.Dns.skip_questions plant_os.Net.Dns.skip_then plant_os.Net.Dns.find_answer
    plant_os.Net.Dns.answer_at plant_os.Net.Dns.be16 dns_skip_name plant_os.Net.Dns.skip_loop
resolved = refl

dns_process_reply-SameBelow_example :
    (dns_process_reply waiting (λ i. get_or datagram i 0) 35
      ≡ dns_process_reply waiting (λ i. if ltb i 35 then get_or datagram i 0 else 255) 35)
    × ((pos : ℕ) → dns_skip_name (λ i. get_or datagram i 0) pos 35 ≢ starved)
dns_process_reply-SameBelow_example =
    dns_process_reply-SameBelow waiting (λ i. get_or datagram i 0)
      (λ i. if ltb i 35 then get_or datagram i 0 else 255) 35
      (λ i h. let inside : ltb i 35 ≡ true = ground arith in rw inside refl)
