-- ===== src/Mm/Vma/FirstFit.antt =====
-- What `vma_find_free` returns.
use plant_os.Base.{
  ℕ, zero, suc, ◌+◌, ◌*◌, ◌%◌, ◌^◌, ◌<◌, ◌≤◌, ◌≡◌, refl, ◌⊎◌, inl, inr, true, Option, some, List,
  length, find_index-cases, IsFirst, NoneOf, leb, Bool-cases, arith,
}
use plant_os.Mm.Vma.{
  Vma, blank, area, mmap_base, mmap_end, page_size, page_up, add64, overlaps, find_free_loop,
  vma_find_free,
}

-- Every area ends in the lower half of the address space.
abbrev pub IsUser : List Vma → Type 0
IsUser vmas = (i : ℕ) → i < length vmas → (area vmas i).used ≡ true → (area vmas i).end ≤ 2 ^ 47

-- `size` bytes from `a` on are in the region, on a page boundary, and meet no area.
pub record Fits (vmas : List Vma) (size a : ℕ) : Type 0 where
  pub aligned : a % page_size ≡ 0
  pub base : mmap_base ≤ a
  pub top : a + size ≤ mmap_end
  pub clear :
      (i : ℕ)
      → i < length vmas
      → (area vmas i).used ≡ true
      → (a + size ≤ (area vmas i).start) ⊎ ((area vmas i).end ≤ a)

-- The lowest address that fits, or 0 if there is none.
pub data IsFirstFit (vmas : List Vma) (size : ℕ) : Option ℕ → Type 0 where
  found :
      {a : ℕ}
      → Fits vmas size a
      → ((b : ℕ) → Fits vmas size b → a ≤ b)
      → IsFirstFit vmas size (some a)
  exhausted : ((b : ℕ) → ¬ Fits vmas size b) → IsFirstFit vmas size (some 0)

page_up_lem :
    (e : ℕ)
    → e ≤ 2 ^ 47
    → (page_up e % page_size ≡ 0) × (e ≤ page_up e) × (page_up e < e + page_size)
unfolding page_up
page_up_lem e h = (omega arith, omega arith, omega arith)

module _ (vmas : List Vma) (size : ℕ) (user : IsUser vmas) (small : size ≤ 2 ^ 47) where
  -- What the loop knows of `addr` when a round begins.
  record IsNext (addr : ℕ) : Type 0 where
    aligned : addr % page_size ≡ 0
    base : mmap_base ≤ addr
    bounded : addr ≤ 2 ^ 47
    least : (b : ℕ) → Fits vmas size b → addr ≤ b

  here-Fits :
      (addr : ℕ)
      → IsNext addr
      → leb (add64 addr size) mmap_end ≡ true
      → NoneOf (overlaps addr size) blank vmas
      → Fits vmas size addr
  here-Fits addr x top none_of = record {
    aligned = x.aligned;
    base = x.base;
    top = ground (arith, x.bounded);
    clear = λ i lt u. ground (arith, x.bounded, none_of i lt);
  }

  -- Past the end of an area in the way, nothing that fits is skipped.
  jump-IsNext :
      (addr i : ℕ)
      → IsNext addr
      → IsFirst (overlaps addr size) blank vmas i
      → IsNext (page_up (area vmas i).end) × (addr + page_size ≤ page_up (area vmas i).end)
  jump-IsNext addr i x f =
      let v = area vmas i in
      let meets : (v.used ≡ true) × (addr < v.end) × (v.start < addr + size) =
        ground (arith, f.passes, x.bounded) in
      let low : v.end ≤ 2 ^ 47 = user i f.in_range meets.0 in
      let (al, ge, lt) = page_up_lem v.end low in
      (
        record {
          aligned = al;
          base = omega (arith, x.base, meets.1);
          bounded = omega (arith, al, lt, low);
          least = λ b fb. elim (fb.clear i f.in_range meets.0) [
            | inl before ↦ absurd (omega (arith, x.least b fb, meets.2))
            | inr behind ↦ omega (arith, fb.aligned, al, lt)
          ];
        },
        omega (arith, x.aligned, al, ge, meets.1),
      )

  round-IsFirstFit :
      (n addr : ℕ)
      → IsNext addr
      → ((i : ℕ)
          → leb (add64 addr size) mmap_end ≡ true
          → IsFirst (overlaps addr size) blank vmas i
          → IsFirstFit vmas size (find_free_loop n vmas size (page_up (area vmas i).end)))
      → IsFirstFit vmas size (find_free_loop (suc n) vmas size addr)
  unfolding find_free_loop
  round-IsFirstFit n addr x again = elim (Bool-cases (leb (add64 addr size) mmap_end)) [
    | inr out ↦ rw out (exhausted (λ b fb. ground (arith, fb.top, x.least b fb, x.bounded)))
    | inl inside ↦ elim (find_index-cases (overlaps addr size) blank vmas) [
      | inl (e, none_of) ↦ rw (inside, e) (found (here-Fits addr x inside none_of) x.least)
      | inr (i, e, f) ↦ rw (inside, e) (again i inside f)
    ]
  ]

  loop-IsFirstFit :
      (n addr : ℕ)
      → IsNext addr
      → mmap_end < addr + n * page_size
      → IsFirstFit vmas size (find_free_loop (suc n) vmas size addr)
  loop-IsFirstFit zero addr x enough =
      round-IsFirstFit zero addr x (λ i inside f. absurd (ground (arith, x.bounded)))
  loop-IsFirstFit (suc n) addr x enough = round-IsFirstFit (suc n) addr x (λ i inside f.
      let (x', further) = jump-IsNext addr i x f in
      loop-IsFirstFit n (page_up (area vmas i).end) x' (omega arith))

-- `vma_find_free` ends, and returns the lowest address of the region on a page boundary where the
-- size, rounded up to pages, meets no area, or 0 if there is none. Sizes and areas lie in the lower
-- half of the address space.
pub vma_find_free_lem :
    (vmas : List Vma) (size : ℕ)
    → IsUser vmas
    → size < 2 ^ 47
    → IsFirstFit vmas (page_up size) (vma_find_free vmas size)
unfolding vma_find_free
vma_find_free_lem vmas size user small =
    let (al, ge, lt) = page_up_lem size (omega arith) in
    loop-IsFirstFit vmas (page_up size) user (omega (arith, al, lt)) 393217 mmap_base
      (record {
        aligned = refl;
        base = omega arith;
        bounded = omega arith;
        least = λ b fb. fb.base;
      })
      (omega arith)
