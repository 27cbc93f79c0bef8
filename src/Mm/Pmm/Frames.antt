-- ===== src/Mm/Pmm/Frames.antt =====
-- The pages as a set: what `pmm_alloc_page`, `pmm_free_page` and `pmm_mark_page_used` do to it, and
-- the count of used pages.
use plant_os.Base.{
  ℕ, zero, suc, ◌+◌, ◌*◌, ◌/◌, ◌%◌, ◌^◌, ◌<◌, ◌≤◌, ◌≡◌, refl, ap, inl, inr, Bool, true, false,
  Option, none, some, List, length, ltb, ◌==◌, if◌then◌else◌, Bool-cases, arith,
}
use plant_os.Mm.Pmm.{
  Pmm, bitmap_test, bitmap_set, bitmap_clear, take_page, give_page, first_free, pmm_alloc_page,
}
use plant_os.Mm.Pmm.Bits.{
  bitmap_test-set, bitmap_test-clear, length-bitmap_set, length-bitmap_clear,
}

-- The number of used pages below `n`.
unfoldable pub used_below : List ℕ → ℕ → ℕ
used_below bitmap zero = 0
used_below bitmap (suc n) = used_below bitmap n + (if bitmap_test bitmap n then 1 else 0)

used_below-le : (bitmap : List ℕ) (n : ℕ) → used_below bitmap n ≤ n
unfolding used_below
used_below-le bitmap zero = omega arith
used_below-le bitmap (suc n) = ground (arith, used_below-le bitmap n)

-- The bitmap has a bit for each page, the counter is right, and addresses fit in 64 bits.
pub record IsCounted (p : Pmm) : Type 0 where
  pub room : p.total_pages ≤ length p.bitmap * 8
  pub counted : p.used_pages ≡ used_below p.bitmap p.total_pages
  pub small : p.total_pages < 2 ^ 52

used_below-set :
    (bitmap : List ℕ) (p n : ℕ)
    → p / 8 < length bitmap
    → bitmap_test bitmap p ≡ false
    → used_below (bitmap_set bitmap p) n ≡ used_below bitmap n + (if ltb p n then 1 else 0)
unfolding used_below
used_below-set bitmap p zero h e = ground arith
used_below-set bitmap p (suc n) h e = elim (Bool-cases (p == n)) [
  | inl here ↦
      let same : p ≡ n = ground arith in
      ground (
        arith,
        used_below-set bitmap p n h e,
        bitmap_test-set bitmap p n h,
        ap (bitmap_test bitmap) same,
      )
  | inr other ↦ ground (arith, used_below-set bitmap p n h e, bitmap_test-set bitmap p n h)
]

used_below-clear :
    (bitmap : List ℕ) (p n : ℕ)
    → p / 8 < length bitmap
    → bitmap_test bitmap p ≡ true
    → used_below (bitmap_clear bitmap p) n + (if ltb p n then 1 else 0) ≡ used_below bitmap n
unfolding used_below
used_below-clear bitmap p zero h e = ground arith
used_below-clear bitmap p (suc n) h e = elim (Bool-cases (p == n)) [
  | inl here ↦
      let same : p ≡ n = ground arith in
      ground (
        arith,
        used_below-clear bitmap p n h e,
        bitmap_test-clear bitmap p n h,
        ap (bitmap_test bitmap) same,
      )
  | inr other ↦ ground (arith, used_below-clear bitmap p n h e, bitmap_test-clear bitmap p n h)
]

-- The page `i` alone has become used (or free), and the counter follows.
pub record Turned (p : Pmm) (i : ℕ) (to : Bool) (p' : Pmm) : Type 0 where
  pub counted : IsCounted p'
  pub total : p'.total_pages ≡ p.total_pages
  pub pages : (q : ℕ) → bitmap_test p'.bitmap q ≡ (if i == q then to else bitmap_test p.bitmap q)

pub take_page-Turned :
    (p : Pmm) (i : ℕ)
    → IsCounted p
    → i < p.total_pages
    → bitmap_test p.bitmap i ≡ false
    → Turned p i true (take_page p i)
unfolding take_page
take_page-Turned p i c lt e =
    let h : i / 8 < length p.bitmap = omega (arith, c.room) in
    let n = used_below-set p.bitmap i p.total_pages h e in
    record {
      counted = record {
        room = omega (arith, c.room, length-bitmap_set p.bitmap i);
        counted = ground (arith, n, c.counted, c.small, used_below-le p.bitmap p.total_pages);
        small = c.small;
      };
      total = refl;
      pages = λ q. bitmap_test-set p.bitmap i q h;
    }

pub give_page-Turned :
    (p : Pmm) (i : ℕ)
    → IsCounted p
    → i < p.total_pages
    → bitmap_test p.bitmap i ≡ true
    → Turned p i false (give_page p i)
unfolding give_page
give_page-Turned p i c lt e =
    let h : i / 8 < length p.bitmap = omega (arith, c.room) in
    let n = used_below-clear p.bitmap i p.total_pages h e in
    record {
      counted = record {
        room = omega (arith, c.room, length-bitmap_clear p.bitmap i);
        counted = ground (arith, n, c.counted, c.small, used_below-le p.bitmap p.total_pages);
        small = c.small;
      };
      total = refl;
      pages = λ q. bitmap_test-clear p.bitmap i q h;
    }

-- What the search returns: the first page in the range that is not used.
data FirstFree (bitmap : List ℕ) (i n : ℕ) : Option ℕ → Type 0 where
  at :
      {j : ℕ}
      → i ≤ j
      → j < i + n
      → bitmap_test bitmap j ≡ false
      → ((k : ℕ) → i ≤ k → k < j → bitmap_test bitmap k ≡ true)
      → FirstFree bitmap i n (some j)
  nowhere : ((k : ℕ) → i ≤ k → k < i + n → bitmap_test bitmap k ≡ true) → FirstFree bitmap i n none

FirstFree-skip :
    (bitmap : List ℕ) (i n : ℕ) {o : Option ℕ}
    → bitmap_test bitmap i ≡ true
    → FirstFree bitmap (i + 1) n o
    → FirstFree bitmap i (suc n) o
FirstFree-skip bitmap i n e (at le lt free earlier) = at (omega arith) (omega arith) free (λ k a b.
    elim (Bool-cases (i == k)) [
      | inl here ↦ let same : i ≡ k = ground arith in rw (← same) e
      | inr other ↦ earlier k (ground arith) b
    ])
FirstFree-skip bitmap i n e (nowhere all) = nowhere (λ k a b. elim (Bool-cases (i == k)) [
  | inl here ↦ let same : i ≡ k = ground arith in rw (← same) e
  | inr other ↦ all k (ground arith) (omega arith)
])

first_free-FirstFree : (bitmap : List ℕ) (n i : ℕ) → FirstFree bitmap i n (first_free bitmap n i)
unfolding first_free
first_free-FirstFree bitmap zero i = nowhere (λ k a b. absurd (omega arith))
first_free-FirstFree bitmap (suc n) i = elim (Bool-cases (bitmap_test bitmap i)) [
  | inl e ↦ rw e (FirstFree-skip bitmap i n e (first_free-FirstFree bitmap n (i + 1)))
  | inr e ↦ rw e (at (omega arith) (omega arith) e (λ k a b. absurd (omega arith)))
]

-- The lowest free page, now used, at its address; or NULL, and no page is free.
pub data IsAllocated (p : Pmm) : ℕ × Pmm → Type 0 where
  page :
      {i : ℕ} {p' : Pmm}
      → i < p.total_pages
      → bitmap_test p.bitmap i ≡ false
      → ((k : ℕ) → k < i → bitmap_test p.bitmap k ≡ true)
      → Turned p i true p'
      → IsAllocated p (i * 4096, p')
  full : ((k : ℕ) → k < p.total_pages → bitmap_test p.bitmap k ≡ true) → IsAllocated p (0, p)

alloc-cases :
    (p : Pmm) {o : Option ℕ}
    → IsCounted p
    → FirstFree p.bitmap 0 p.total_pages o
    → IsAllocated p (elim o [ some i ↦ (i * 4096 % 2 ^ 64, take_page p i) | none ↦ (0, p) ])
alloc-cases p c (nowhere all) = full (λ k lt. all k (omega arith) (omega arith))
alloc-cases p c (at {j = i} le lt free earlier) =
    let fits : i * 4096 % 2 ^ 64 ≡ i * 4096 = omega (arith, c.small) in
    rw fits (
      page (omega arith) free (λ k b. earlier k (omega arith) b)
        (take_page-Turned p i c (omega arith) free))

-- `pmm_alloc_page` returns the address of the lowest free page and turns that page used, counter
-- and all; it returns NULL and changes nothing if every page is used.
pub pmm_alloc_page-IsAllocated : (p : Pmm) → IsCounted p → IsAllocated p (pmm_alloc_page p)
unfolding pmm_alloc_page
pmm_alloc_page-IsAllocated p c = alloc-cases p c (first_free-FirstFree p.bitmap p.total_pages 0)
