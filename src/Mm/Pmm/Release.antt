-- ===== src/Mm/Pmm/Release.antt =====
-- Pages given back, pages marked, and sequences of allocations.
use plant_os.Base.{
  ℕ, zero, suc, ◌*◌, ◌/◌, ◌<◌, ◌≡◌, refl, ap, inl, inr, Bool, true, false, ◌&&◌, not, List, [], ◌∷◌,
  ltb, ◌==◌, if◌then◌else◌, Bool-cases, arith,
}
use plant_os.Mm.Pmm.{Pmm, bitmap_test, pmm_alloc_page, pmm_mark_page_used, pmm_free_page}
use plant_os.Mm.Pmm.Frames.{
  IsCounted, Turned, take_page-Turned, give_page-Turned, IsAllocated, page, full,
  pmm_alloc_page-IsAllocated,
}

-- The page of `addr`, if it exists, is `to` afterwards; the others are as before.
pub record Sets (p : Pmm) (addr : ℕ) (to : Bool) (p' : Pmm) : Type 0 where
  pub counted : IsCounted p'
  pub total : p'.total_pages ≡ p.total_pages
  pub pages :
      (q : ℕ)
      → q < p.total_pages
      → bitmap_test p'.bitmap q ≡ (if addr / 4096 == q then to else bitmap_test p.bitmap q)

Turned-Sets :
    (p : Pmm) (addr : ℕ) {to : Bool} {p' : Pmm} → Turned p (addr / 4096) to p' → Sets p addr to p'
Turned-Sets p addr t = record { counted = t.counted; total = t.total; pages = λ q lt. t.pages q }

kept-Sets :
    (p : Pmm) (addr : ℕ) (to : Bool)
    → IsCounted p
    → (addr / 4096 < p.total_pages → bitmap_test p.bitmap (addr / 4096) ≡ to)
    → Sets p addr to p
kept-Sets p addr to c h = record {
  counted = c;
  total = refl;
  pages = λ q lt. elim (Bool-cases (addr / 4096 == q)) [
    | inl here ↦
        let same : addr / 4096 ≡ q = ground arith in rw here (rw (← same) (h (omega arith)))
    | inr other ↦ rw other refl
  ];
}

-- `pmm_free_page` makes the page of the address free, a free or foreign page is left alone, and the
-- counter stays right.
pub pmm_free_page-Sets :
    (p : Pmm) (addr : ℕ) → IsCounted p → Sets p addr false (pmm_free_page p addr)
unfolding pmm_free_page
pmm_free_page-Sets p addr c =
    elim (Bool-cases (ltb (addr / 4096) p.total_pages && bitmap_test p.bitmap (addr / 4096))) [
      | inl e ↦ rw e (Turned-Sets p addr (give_page-Turned p _ c (ground arith) (ground arith)))
      | inr e ↦ rw e (kept-Sets p addr false c (λ lt. ground arith))
    ]

-- `pmm_mark_page_used` makes the page of the address used, a used or foreign page is left alone, and
-- the counter stays right.
pub pmm_mark_page_used-Sets :
    (p : Pmm) (addr : ℕ) → IsCounted p → Sets p addr true (pmm_mark_page_used p addr)
unfolding pmm_mark_page_used
pmm_mark_page_used-Sets p addr c =
    elim (Bool-cases
      (ltb (addr / 4096) p.total_pages && not (bitmap_test p.bitmap (addr / 4096)))) [
        | inl e ↦ rw e (Turned-Sets p addr (take_page-Turned p _ c (ground arith) (ground arith)))
        | inr e ↦ rw e (kept-Sets p addr true c (λ lt. ground arith))
      ]

-- `n` allocations in a row.
pub allocs : ℕ → Pmm → List ℕ × Pmm
allocs zero p = ([], p)
allocs (suc n) p = let (a, p') = pmm_alloc_page p in let (xs, p'') = allocs n p' in (a ∷ xs, p'')

-- Each address of the list is NULL or that of a free page, which is used when the next is chosen.
pub data AllFresh : Pmm → List ℕ → Type 0 where
  nil : {p : Pmm} → AllFresh p []
  null : {p : Pmm} {xs : List ℕ} → AllFresh p xs → AllFresh p (0 ∷ xs)
  fresh :
      {p : Pmm} {i : ℕ} {p' : Pmm} {xs : List ℕ}
      → i < p.total_pages
      → bitmap_test p.bitmap i ≡ false
      → Turned p i true p'
      → AllFresh p' xs
      → AllFresh p (i * 4096 ∷ xs)

cons-fresh :
    (p : Pmm) {out : ℕ × Pmm} {xs : List ℕ}
    → IsCounted p
    → IsAllocated p out
    → (IsCounted out.1 → AllFresh out.1 xs)
    → AllFresh p (out.0 ∷ xs)
cons-fresh p c (page lt free lower t) rest = fresh lt free t (rest t.counted)
cons-fresh p c (full all) rest = null (rest c)

-- Allocations in a row hand out pages that were free, each to one caller.
pub allocs-AllFresh : (n : ℕ) (p : Pmm) → IsCounted p → AllFresh p (allocs n p).0
unfolding allocs
allocs-AllFresh zero p c = nil
allocs-AllFresh (suc n) p c =
    cons-fresh p c (pmm_alloc_page-IsAllocated p c)
      (λ c'. allocs-AllFresh n (pmm_alloc_page p).1 c')

freed :
    (p : Pmm) {out : ℕ × Pmm}
    → IsCounted p
    → IsAllocated p out
    → (k : ℕ) → k < p.total_pages
    → bitmap_test p.bitmap k ≡ false
    → (q : ℕ) → q < p.total_pages
    → bitmap_test (pmm_free_page out.1 out.0).bitmap q ≡ bitmap_test p.bitmap q
freed p c (page {i = i} {p' = p'} lt free lower t) k lk fk q lq =
    let s = pmm_free_page-Sets p' (i * 4096) t.counted in
    let here : i * 4096 / 4096 ≡ i = omega arith in
    elim (Bool-cases (i == q)) [
      | inl e ↦
          let same : i ≡ q = ground arith in
          ground (arith, s.pages q (omega (arith, t.total)), ap (bitmap_test p.bitmap) same)
      | inr e ↦ ground (arith, s.pages q (omega (arith, t.total)), t.pages q)
    ]
freed p c (full all) k lk fk q lq = cc (all k lk, fk)

-- If a page is free, an allocation followed by the release of its result leaves every page as it was.
pub pmm_free_page-pmm_alloc_page :
    (p : Pmm) (k : ℕ)
    → IsCounted p
    → k < p.total_pages
    → bitmap_test p.bitmap k ≡ false
    → (q : ℕ) → q < p.total_pages
    → let (a, p') = pmm_alloc_page p in
      bitmap_test (pmm_free_page p' a).bitmap q ≡ bitmap_test p.bitmap q
pmm_free_page-pmm_alloc_page p k c lk fk = freed p c (pmm_alloc_page-IsAllocated p c) k lk fk
