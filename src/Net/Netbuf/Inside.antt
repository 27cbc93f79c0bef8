-- ===== src/Net/Netbuf/Inside.antt =====
-- The bounds of a packet buffer, and the bytes that are stored in it.
use plant_os.Base.{
  ℕ, zero, suc, ◌+◌, ◌<◌, ◌≤◌, ◌≡◌, refl, ap, ap₂, ◌∙◌, true, false, Option, none, some, List, [],
  ◌∷◌, length, get_or, ◌==◌, arith,
}
use plant_os.Net.Netbuf.{
  Netbuf, netbuf_size, netbuf_new, netbuf_push, netbuf_pull, netbuf_put, fill, slice,
}

-- The packet lies in the buffer.
pub record IsInside (nb : Netbuf) : Type 0 where
  pub end_in : nb.start + nb.len ≤ netbuf_size

-- After an operation the packet lies in the buffer; a refused operation has a reason.
abbrev pub Keeps : Option Netbuf → Type 0 → Type 0
Keeps none why = why
Keeps (some nb) why = IsInside nb

-- A new buffer holds an empty packet with the headroom before it. Whatever the lengths, `netbuf_push`,
-- `netbuf_pull` and `netbuf_put` keep the packet in the buffer, or return NULL exactly for want of
-- headroom, of bytes or of room.
pub netbuf_lem :
    (nb : Netbuf) (n : ℕ)
    → IsInside nb
    → IsInside netbuf_new
      × Keeps (netbuf_push nb n) (nb.start < n)
      × Keeps (netbuf_pull nb n) (nb.len < n)
      × Keeps (netbuf_put nb n) (netbuf_size < nb.start + nb.len + n)
unfolding netbuf_new netbuf_push netbuf_pull netbuf_put
netbuf_lem nb n v = ground arith

pub fill-before : (raw : ℕ → ℕ) (i : ℕ) (xs : List ℕ) (j : ℕ) → j < i → fill raw i xs j ≡ raw j
unfolding fill
fill-before raw i [] j h = refl
fill-before raw i (x ∷ xs) j h = ground (arith, fill-before raw (i + 1) xs j)

pub fill-behind :
    (raw : ℕ → ℕ) (i : ℕ) (xs : List ℕ) (j : ℕ) → i + length xs ≤ j → fill raw i xs j ≡ raw j
unfolding fill
fill-behind raw i [] j h = refl
fill-behind raw i (x ∷ xs) j h = ground (arith, fill-behind raw (i + 1) xs j)

pub fill-at :
    (raw : ℕ → ℕ) (i : ℕ) (xs : List ℕ) (k : ℕ)
    → k < length xs
    → fill raw i xs (i + k) ≡ get_or xs k 0
unfolding fill
fill-at raw i [] k h = absurd (omega arith)
fill-at raw i (x ∷ xs) zero h = ground arith
fill-at raw i (x ∷ xs) (suc k) h =
    let e : i + suc k ≡ i + 1 + k = omega arith in
    let ne : (i + 1 + k == i) ≡ false = ground arith in
    rw e (rw ne (fill-at raw (i + 1) xs k (omega arith)))

pub slice-same :
    (b c : ℕ → ℕ) (i n : ℕ) → ((k : ℕ) → i ≤ k → k < i + n → b k ≡ c k) → slice b i n ≡ slice c i n
unfolding slice
slice-same b c i zero h = refl
slice-same b c i (suc n) h =
    ap₂ ◌∷◌ (h i (omega arith) (omega arith))
      (slice-same b c (i + 1) n (λ k p q. h k (omega arith) (omega arith)))

pub length-slice : (b : ℕ → ℕ) (i n : ℕ) → length (slice b i n) ≡ n
unfolding slice
length-slice b i zero = refl
length-slice b i (suc n) = ap suc (length-slice b (i + 1) n)

-- What is stored is there.
pub slice-fill : (raw : ℕ → ℕ) (i : ℕ) (xs : List ℕ) → slice (fill raw i xs) i (length xs) ≡ xs
unfolding slice fill
slice-fill raw i [] = refl
slice-fill raw i (x ∷ xs) =
    let here : (i == i) ≡ true = ground arith in
    ap₂ ◌∷◌ (rw here refl) (
      slice-same (fill raw i (x ∷ xs)) (fill raw (i + 1) xs) (i + 1) (length xs)
        (λ k lo hi. ground arith)
      ∙ slice-fill raw (i + 1) xs)

pub get_or-slice : (b : ℕ → ℕ) (i n k : ℕ) → k < n → get_or (slice b i n) k 0 ≡ b (i + k)
unfolding slice
get_or-slice b i zero k h = absurd (omega arith)
get_or-slice b i (suc n) zero h = ap b (omega arith)
get_or-slice b i (suc n) (suc k) h = get_or-slice b (i + 1) n k (omega arith) ∙ ap b (omega arith)
