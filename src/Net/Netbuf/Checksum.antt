-- ===== src/Net/Netbuf/Checksum.antt =====
-- The checksum of the headers: a receiver that sums over the checksum too gets 0.
use plant_os.Base.{
  ℕ, ◌+◌, ◌-◌, ◌*◌, ◌/◌, ◌%◌, ◌^◌, ◌<◌, ◌≤◌, ◌≡◌, refl, ◌∙◌, inl, inr, List, [], ◌∷◌, ◌++◌, length,
  ◌==◌, Bool-cases, arith,
}
use plant_os.Net.Netbuf.{sum16, fold16, net_checksum}

-- Bytes.
abbrev pub AllBytes : List ℕ → Type 0
AllBytes [] = Unit {0}
AllBytes (x ∷ xs) = (x < 256) × AllBytes xs

-- The sum without the wrap-around.
words : List ℕ → ℕ
words [] = 0
words (x ∷ []) = x * 2 ^ 8
words (x ∷ y ∷ xs) = x * 2 ^ 8 + y + words xs

words-le : (xs : List ℕ) → AllBytes xs → words xs ≤ 65535 * length xs
unfolding words
words-le [] b = omega arith
words-le (x ∷ []) b = omega arith
words-le (x ∷ y ∷ xs) (bx, (by, b)) = omega (arith, words-le xs b)

sum16-words : (xs : List ℕ) (sum : ℕ) → sum + words xs < 2 ^ 32 → sum16 xs sum ≡ sum + words xs
unfolding sum16 words
sum16-words [] sum h = omega arith
sum16-words (x ∷ []) sum h = omega arith
sum16-words (x ∷ y ∷ xs) sum h =
    let e : (sum + (x * 2 ^ 8 + y)) % 2 ^ 32 ≡ sum + (x * 2 ^ 8 + y) = omega arith in
    rw e (omega (arith, sum16-words xs (sum + (x * 2 ^ 8 + y)) (omega arith)))

-- The folded sum: 16 bits, the same number modulo 2 ^ 16 - 1, and 0 only for 0.
fold16-mod :
    (s : ℕ)
    → s < 2 ^ 32
    → (fold16 3 s < 2 ^ 16)
      × (fold16 3 s % 65535 ≡ s % 65535)
      × (0 < s → 0 < fold16 3 s)
      × (s ≡ 0 → fold16 3 s ≡ 0)
unfolding fold16
fold16-mod s h = ground arith

words-append :
    (pre : List ℕ) (n a b : ℕ) (post : List ℕ)
    → length pre ≡ 2 * n
    → words (pre ++ a ∷ b ∷ post) ≡ words pre + (a * 2 ^ 8 + b) + words post
unfolding words
words-append [] n a b post h = omega arith
words-append (x ∷ []) n a b post h = absurd (omega arith)
words-append (x ∷ y ∷ pre) n a b post h =
    omega (arith, words-append pre (n - 1) a b post (omega arith))

-- A sum `s` and the complement of its fold make up a sum that folds to all ones.
complement : (s : ℕ) → s < 2 ^ 31 → fold16 3 (s + (65535 - fold16 3 s)) ≡ 65535
complement s h =
    let f = fold16-mod s (omega arith) in
    let f' = fold16-mod (s + (65535 - fold16 3 s)) (omega arith) in
    elim (Bool-cases (s == 0)) [
      | inl z ↦
          let z' : s ≡ 0 = ground arith in
          omega (arith, f.0, f.3 z', f'.0, f'.1, f'.2 (omega (arith, f.3 z')))
      | inr nz ↦
          let pos : 0 < s = ground arith in
          omega (arith, f.0, f.1, f.2 pos, f'.0, f'.1, f'.2 (omega arith))
    ]

-- The checksum of a packet whose checksum field is 0, put into that field, makes the sum over the
-- packet right: `net_checksum` of the result is 0. The field stands at an even offset.
pub net_checksum-net_checksum :
    (pre : List ℕ) (n : ℕ) (post : List ℕ)
    → length pre ≡ 2 * n
    → AllBytes pre
    → AllBytes post
    → length pre + length post ≤ 2 ^ 14
    → let c = net_checksum (pre ++ 0 ∷ 0 ∷ post) in
      (c < 2 ^ 16) × (net_checksum (pre ++ (c / 2 ^ 8) ∷ (c % 2 ^ 8) ∷ post) ≡ 0)
unfolding net_checksum
net_checksum-net_checksum pre n post even b b' short =
    let s = words pre + words post in
    let small : s < 2 ^ 31 = omega (arith, words-le pre b, words-le post b') in
    let w : words (pre ++ 0 ∷ 0 ∷ post) ≡ s = omega (arith, words-append pre n 0 0 post even) in
    let e : sum16 (pre ++ 0 ∷ 0 ∷ post) 0 ≡ s =
      sum16-words (pre ++ 0 ∷ 0 ∷ post) 0 (omega (arith, w, small)) ∙ omega (arith, w) in
    let f = fold16-mod s (omega (arith, small)) in
    let c = 2 ^ 16 - 1 - fold16 3 s % 2 ^ 16 in
    let c' : c ≡ 65535 - fold16 3 s = omega (arith, f.0) in
    let w' : words (pre ++ (c / 2 ^ 8) ∷ (c % 2 ^ 8) ∷ post) ≡ s + (65535 - fold16 3 s) =
      omega (arith, words-append pre n (c / 2 ^ 8) (c % 2 ^ 8) post even, c') in
    let e' : sum16 (pre ++ (c / 2 ^ 8) ∷ (c % 2 ^ 8) ∷ post) 0 ≡ s + (65535 - fold16 3 s) =
      sum16-words (pre ++ (c / 2 ^ 8) ∷ (c % 2 ^ 8) ∷ post) 0 (omega (arith, w', small))
      ∙ omega (arith, w') in
    (omega arith, rw e (rw e' (rw (complement s small) refl)))
