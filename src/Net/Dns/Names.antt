-- ===== src/Net/Dns/Names.antt =====
-- Names in wire format: `dns_skip_name` over what `dns_encode_name` writes.
use plant_os.Base.{
  ℕ, zero, suc, ◌+◌, ◌-◌, ◌/◌, ◌%◌, ◌<◌, ◌≤◌, ◌≡◌, refl, sym, ap, ◌∙◌, inl, inr, Bool, true, false,
  ◌&&◌, ◌||◌, Option, some, List, [], ◌∷◌, ◌++◌, length, length-append, get_or, ltb, leb, ◌==◌,
  if◌then◌else◌, Bool-cases, arith,
}
use plant_os.Net.Dns.{
  until_dot, skip_dot, encode_loop, dns_encode_name, at, skip_loop, dns_skip_name,
}
use plant_os.Net.Dns.Spelling.{dotted, spelled, take-label, drop-label, dotted-until_dot}

-- No label but the last is empty, and none has more than 63 characters; `k` were read of the first.
unfoldable pub labels_ok : ℕ → List ℕ → Bool
labels_ok k [] = true
labels_ok k (c ∷ cs) =
    let next = labels_ok 0 cs in
    let same = labels_ok (k + 1) cs in if c == 46 then ltb 0 k && next else ltb k 63 && same

-- The memory from `off` on holds the bytes.
abbrev pub Holds : (ℕ → ℕ) → ℕ → List ℕ → Type 0
Holds byte off out = (i : ℕ) → i < length out → byte (off + i) ≡ get_or out i 0

-- What `until_dot` and `skip_dot` split off.
record IsSplit (k : ℕ) (p : List ℕ) (label rest : List ℕ) : Type 0 where
  short : k + length label ≤ 63
  next_ok : labels_ok 0 (skip_dot rest) ≡ true
  label_len : length label ≤ length p
  rest_le : length (skip_dot rest) ≤ length p - 1
  rest_len : 0 < length (skip_dot rest) → length label + 1 + length (skip_dot rest) ≡ length p

until_dot-IsSplit :
    (k : ℕ) (p : List ℕ)
    → k ≤ 63
    → labels_ok k p ≡ true
    → IsSplit k p (until_dot p).0 (until_dot p).1
unfolding until_dot skip_dot labels_ok
until_dot-IsSplit k [] h ok = record {
  short = omega arith;
  next_ok = refl;
  label_len = omega arith;
  rest_le = omega arith;
  rest_len = λ z. absurd (omega arith);
}
until_dot-IsSplit k (c ∷ cs) h ok = elim (Bool-cases (c == 46)) [
  | inl dot ↦ rw dot (record {
    short = omega arith;
    next_ok = ground arith;
    label_len = omega arith;
    rest_le = ground arith;
    rest_len = λ z. ground arith;
  })
  | inr letter ↦
      let s = until_dot-IsSplit (k + 1) cs (ground arith) (ground arith) in
      rw letter (record {
        short = omega (arith, s.short);
        next_ok = s.next_ok;
        label_len = omega (arith, s.label_len);
        rest_le = omega (arith, s.rest_le);
        rest_len = λ z. omega (arith, s.rest_len z);
      })
]

get_or-append :
    (xs ys : List ℕ) (i : ℕ) (d : ℕ) → get_or (xs ++ ys) (length xs + i) d ≡ get_or ys i d
get_or-append [] ys i d = ap (λ k. get_or ys k d) (omega arith)
get_or-append (x ∷ xs) ys i d =
    ap (λ k. get_or (x ∷ (xs ++ ys)) k d) {y = suc (length xs + i)} (omega arith)
    ∙ get_or-append xs ys i d

-- The label in the memory, and what stands behind it.
Holds-label :
    (byte : ℕ → ℕ) (off : ℕ) (label out : List ℕ)
    → Holds byte off (length label ∷ (label ++ out))
    → (byte off ≡ length label) × Holds byte (off + length label + 1) out
Holds-label byte off label out h = (
  ap byte (omega arith) ∙ h 0 (omega arith),
  λ i lt.
      ap byte (omega arith)
      ∙ h (suc (length label + i)) (omega (arith, length-append label out))
      ∙ get_or-append label out i 0,
)

-- What the encoder has written spells the name, and is skipped in one go, wherever it stands.
record IsEncoded (room : ℕ) (name out : List ℕ) : Type 0 where
  fits : length out ≤ room
  spells : (n : ℕ) → length out ≤ n → spelled n out ≡ dotted name
  skipped :
      (n : ℕ) (byte : ℕ → ℕ) (off len : ℕ)
      → length out ≤ n
      → off + length out ≤ len
      → Holds byte off out
      → skip_loop n byte off len ≡ at (off + length out)

root-IsEncoded : (room : ℕ) → 0 < room → IsEncoded room [] (0 ∷ [])
unfolding skip_loop spelled dotted
root-IsEncoded room h = record { fits = omega arith; spells = spells; skipped = skipped }
  where
    spells : (n : ℕ) → 1 ≤ n → spelled n (0 ∷ []) ≡ []
    spells zero hn = absurd (omega arith)
    spells (suc n) hn = refl

    skipped :
        (n : ℕ) (byte : ℕ → ℕ) (off len : ℕ)
        → 1 ≤ n
        → off + 1 ≤ len
        → Holds byte off (0 ∷ [])
        → skip_loop n byte off len ≡ at (off + 1)
    skipped zero byte off len hn hl h = absurd (omega arith)
    skipped (suc n) byte off len hn hl h =
        let e : byte off ≡ 0 = ap byte (omega arith) ∙ h 0 (omega arith) in ground arith

label-IsEncoded :
    (room : ℕ) (name rest label out : List ℕ)
    → dotted name ≡ label ++ 46 ∷ dotted rest
    → 0 < length label
    → length label ≤ 63
    → length label + 1 ≤ room
    → IsEncoded (room - (length label + 1)) rest out
    → IsEncoded room name (length label ∷ (label ++ out))
unfolding skip_loop spelled
label-IsEncoded room name rest label out eq pos short fits e = record {
  fits = omega (arith, e.fits, length-append label out);
  spells = spells;
  skipped = skipped;
}
  where
    spells :
        (n : ℕ)
        → length (length label ∷ (label ++ out)) ≤ n
        → spelled n (length label ∷ (label ++ out)) ≡ dotted name
    spells zero hn = absurd (omega arith)
    spells (suc n) hn =
        let some_in : (length label == 0) ≡ false = ground (arith, pos) in
        rw (some_in, take-label label out, drop-label label out)
          (ap (λ ys. label ++ 46 ∷ ys) (e.spells n (omega (arith, length-append label out)))
            ∙ sym eq)

    skipped :
        (n : ℕ) (byte : ℕ → ℕ) (off len : ℕ)
        → length (length label ∷ (label ++ out)) ≤ n
        → off + length (length label ∷ (label ++ out)) ≤ len
        → Holds byte off (length label ∷ (label ++ out))
        → skip_loop n byte off len ≡ at (off + length (length label ∷ (label ++ out)))
    skipped zero byte off len hn hl h = absurd (omega arith)
    skipped (suc n) byte off len hn hl h =
        let (b, h') = Holds-label byte off label out h in
        let l = length-append label out in
        let next =
          e.skipped n byte (off + length label + 1) len (omega (arith, l)) (omega (arith, l)) h' in
        let here : off + 1 + byte off ≡ off + length label + 1 = omega (arith, b) in
        let end : off + length label + 1 + length out ≡ off + suc (length (label ++ out)) =
          omega (arith, l) in
        let t1 : ltb off len ≡ true = ground arith in
        let t2 : (byte off == 0) ≡ false = ground (arith, b) in
        let t3 : (byte off / 64 % 4 == 3) ≡ false = ground (arith, b) in
        rw (t1, t2, t3, here) (next ∙ ap at end)

abbrev Written : Option (List ℕ) → ℕ → List ℕ → Type 0
Written o room name = (out : List ℕ) × (o ≡ some out) × IsEncoded room name out

label_first :
    (c : ℕ) (cs : List ℕ) → labels_ok 0 (c ∷ cs) ≡ true → 0 < length (until_dot (c ∷ cs)).0
unfolding labels_ok until_dot
label_first c cs ok = ground arith

encode_loop-Written :
    (n : ℕ) (p : List ℕ) (pos bufsize : ℕ)
    → labels_ok 0 p ≡ true
    → length p < n
    → pos < bufsize
    → (0 < length p → pos + length p + 1 < bufsize)
    → Written (encode_loop n p pos bufsize) (bufsize - pos) p
unfolding encode_loop
encode_loop-Written zero p pos bufsize ok hn hp hb = absurd (omega arith)
encode_loop-Written (suc n) [] pos bufsize ok hn hp hb =
    (0 ∷ [], ground arith, root-IsEncoded (bufsize - pos) (omega arith))
encode_loop-Written (suc n) (c ∷ cs) pos bufsize ok hn hp hb =
    let label = (until_dot (c ∷ cs)).0 in
    let rest = (until_dot (c ∷ cs)).1 in
    let s = until_dot-IsSplit 0 (c ∷ cs) (omega arith) ok in
    let first = label_first c cs ok in
    let room : pos + suc (length cs) + 1 < bufsize = hb (omega arith) in
    let (out, e, w) =
      encode_loop-Written n (skip_dot rest) (pos + length label + 1) bufsize s.next_ok
        (omega (arith, s.rest_le)) (omega (arith, s.label_len))
        (λ z. omega (arith, s.rest_len z)) in
    let test : (ltb 63 (length label) || leb bufsize (pos + length label + 1)) ≡ false =
      ground (arith, s.short, s.label_len) in
    let less : bufsize - (pos + length label + 1) ≡ bufsize - pos - (length label + 1) =
      omega arith in
    (
      length label ∷ (label ++ out),
      rw (test, e) refl,
      label-IsEncoded (bufsize - pos) (c ∷ cs) (skip_dot rest) label out (dotted-until_dot c cs)
          first (omega (arith, s.short)) (omega (arith, s.label_len)) (rw less at w),
    )

-- A name in which no label but the last is empty and none is longer than 63 is encoded, if the
-- buffer has two bytes more than it has characters; the bytes fit in the buffer, read as labels they
-- spell the name, with a dot behind its last label, and in whatever datagram they stand
-- `dns_skip_name` goes to the byte behind them.
pub dns_skip_name-dns_encode_name :
    (name : List ℕ) (bufsize : ℕ)
    → labels_ok 0 name ≡ true
    → length name + 2 ≤ bufsize
    → (out : List ℕ) × (dns_encode_name name bufsize ≡ some out)
      × (length out ≤ bufsize)
      × (spelled (length out) out ≡ dotted name)
      × ((byte : ℕ → ℕ) (off len : ℕ)
          → off + length out ≤ len
          → Holds byte off out
          → dns_skip_name byte off len ≡ at (off + length out))
unfolding dns_encode_name dns_skip_name
dns_skip_name-dns_encode_name name bufsize ok room =
    let (out, e, w) =
      encode_loop-Written (length name + 1) name 0 bufsize ok (omega arith) (omega arith)
        (λ z. omega arith) in
    (
      out,
      e,
      omega (arith, w.fits),
      w.spells (length out) (omega arith),
      λ byte off len fits h. w.skipped (len + 1) byte off len (omega arith) fits h,
    )
