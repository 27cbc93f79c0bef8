-- ===== src/Net/Dns/Reply.antt =====
-- `dns_process_reply` reads the datagram only.
use plant_os.Base.{
  ℕ, zero, suc, ◌+◌, ◌/◌, ◌%◌, ◌<◌, ◌≤◌, ◌≡◌, ◌≢◌, refl, ap, ◌∙◌, inl, inr, ◌&&◌, Option, none,
  some, ltb, ◌==◌, Bool-cases, arith,
}
use plant_os.Net.Dns.{
  Skip, at, truncated, starved, skip_loop, dns_skip_name, be16, skip_questions, answer_at,
  skip_then, find_answer, Pending, answers, reply, dns_process_reply,
}

-- Two memories that hold the same datagram, whatever stands behind it.
abbrev pub SameBelow : ℕ → (ℕ → ℕ) → (ℕ → ℕ) → Type 0
SameBelow len byte byte' = (i : ℕ) → i < len → byte i ≡ byte' i

skip_then-same :
    {o o' : Skip} {f g : ℕ → Option ℕ}
    → o ≡ o'
    → ((p : ℕ) → f p ≡ g p)
    → skip_then o f ≡ skip_then o' g
unfolding skip_then
skip_then-same {o} {f = f} {g = g} e h = rw (← e) (branch o)
  where
    branch : (o : Skip) → skip_then o f ≡ skip_then o g
    branch (at p) = h p
    branch truncated = refl
    branch starved = refl

module _ (byte byte' : ℕ → ℕ) (len : ℕ) (same : SameBelow len byte byte') where
  be16-same : (i : ℕ) → i + 2 ≤ len → be16 byte i ≡ be16 byte' i
  unfolding be16
  be16-same i h = omega (arith, same i (omega arith), same (i + 1) (omega arith))

  skip_loop-same : (n pos : ℕ) → skip_loop n byte pos len ≡ skip_loop n byte' pos len
  unfolding skip_loop
  skip_loop-same zero pos = refl
  skip_loop-same (suc n) pos = elim (Bool-cases (ltb pos len)) [
    | inl inside ↦ rw (inside, same pos (ground arith), skip_loop-same n (pos + 1 + byte' pos)) refl
    | inr behind ↦ rw behind refl
  ]

  dns_skip_name-same : (pos : ℕ) → dns_skip_name byte pos len ≡ dns_skip_name byte' pos len
  unfolding dns_skip_name
  dns_skip_name-same pos = skip_loop-same (len + 1) pos

  skip_questions-same : (n pos : ℕ) → skip_questions n byte pos len ≡ skip_questions n byte' pos len
  unfolding skip_questions
  skip_questions-same zero pos = refl
  skip_questions-same (suc n) pos =
      skip_then-same (dns_skip_name-same pos) (λ p. rw (skip_questions-same n (p + 4)) refl)

  answer_at-same :
      (next next' : ℕ → Option ℕ) (p : ℕ)
      → ((q : ℕ) → next q ≡ next' q)
      → answer_at next byte p len ≡ answer_at next' byte' p len
  unfolding answer_at
  answer_at-same next next' p h = elim (Bool-cases (ltb len (p + 10))) [
    | inl short ↦ rw short refl
    | inr long ↦
        let t : be16 byte p ≡ be16 byte' p = be16-same p (ground arith) in
        let l : be16 byte (p + 8) ≡ be16 byte' (p + 8) = be16-same (p + 8) (ground arith) in
        elim (Bool-cases (ltb len (p + 10 + be16 byte' (p + 8)))) [
          | inl cut ↦ rw (long, l, cut) refl
          | inr whole ↦ elim (Bool-cases (be16 byte' p == 1 && be16 byte' (p + 8) == 4)) [
            | inl found ↦
                let a = be16-same (p + 10) (ground arith) in
                let b = be16-same (p + 12) (ground arith) in
                rw (long, t, l, whole, found, a, b) refl
            | inr other ↦ rw (long, t, l, whole, other) (h _)
          ]
        ]
  ]

  find_answer-same : (n pos : ℕ) → find_answer n byte pos len ≡ find_answer n byte' pos len
  unfolding find_answer
  find_answer-same zero pos = refl
  find_answer-same (suc n) pos =
      skip_then-same (dns_skip_name-same pos)
        (λ p. answer_at-same _ _ p (λ q. find_answer-same n q))

  answers-same : (o : Option ℕ) → 12 ≤ len → answers byte len o ≡ answers byte' len o
  unfolding answers
  answers-same none h = refl
  answers-same (some pos) h = rw (be16-same 6 (omega arith)) (find_answer-same (be16 byte' 6) pos)

  reply-same : (s : Pending) (o : Option ℕ) → 12 ≤ len → reply s byte o ≡ reply s byte' o
  unfolding reply
  reply-same s none h = refl
  reply-same s (some ip) h = rw (be16-same 0 (omega arith), same 3 (omega arith)) refl

skip_loop-ne-starved :
    (n : ℕ) (byte : ℕ → ℕ) (pos len : ℕ) → len ≤ pos + n → skip_loop (suc n) byte pos len ≢ starved
unfolding skip_loop
skip_loop-ne-starved zero byte pos len h = ground arith
skip_loop-ne-starved (suc n) byte pos len h =
    ground (arith, skip_loop-ne-starved n byte (pos + 1 + byte pos) len)

dns_skip_name-ne-starved : (byte : ℕ → ℕ) (pos len : ℕ) → dns_skip_name byte pos len ≢ starved
unfolding dns_skip_name
dns_skip_name-ne-starved byte pos len =
    let e : len + 1 ≡ suc len = omega arith in
    rw e (skip_loop-ne-starved len byte pos len (omega arith))

whole :
    (s : Pending) (byte byte' : ℕ → ℕ) (len : ℕ)
    → SameBelow len byte byte'
    → dns_process_reply s byte len ≡ dns_process_reply s byte' len
unfolding dns_process_reply
whole s byte byte' len same = elim (Bool-cases (ltb len 12)) [
  | inl short ↦ rw short refl
  | inr long ↦
      let h : 12 ≤ len = ground arith in
      elim (Bool-cases (byte' 2 / 128 % 2 == 1)) [
        | inl response ↦
            rw (long, same 2 (omega arith), response, be16-same byte byte' len same 4 (omega arith))
              (ap (λ o. reply s byte (answers byte len o))
                  (skip_questions-same byte byte' len same (be16 byte' 4) 12)
                ∙ ap (reply s byte) (answers-same byte byte' len same _ h)
                ∙ reply-same byte byte' len same s _ h)
        | inr query ↦ rw (long, same 2 (omega arith), query) refl
      ]
]

-- `dns_process_reply` reads no byte behind the datagram, whatever the counts, names and lengths in
-- it say: the state after it is the same for all memories that hold the datagram. No name in it
-- keeps `dns_skip_name` in its loop for more rounds than the datagram has bytes, and one.
pub dns_process_reply-SameBelow :
    (s : Pending) (byte byte' : ℕ → ℕ) (len : ℕ)
    → SameBelow len byte byte'
    → (dns_process_reply s byte len ≡ dns_process_reply s byte' len)
      × ((pos : ℕ) → dns_skip_name byte pos len ≢ starved)
dns_process_reply-SameBelow s byte byte' len same =
    (whole s byte byte' len same, λ pos. dns_skip_name-ne-starved byte pos len)
