-- ===== src/Mm/Vma/Mmap.antt =====
-- SYS_MMAP, with and without a hint.
use plant_os.Base.{
  ℕ, ◌+◌, ◌^◌, ◌<◌, ◌≤◌, ◌≡◌, refl, true, false, ◌&&◌, Option, none, some, List, length, set, ltb,
  leb, ◌==◌, arith,
}
use plant_os.Mm.Vma.{
  Vma, area, mmap_base, mmap_end, page_up, add64, vma_alloc, vma_find, vma_add, mmap_addr,
  mmap_result, mmap_place, mmap_area,
}
use plant_os.Mm.Vma.FirstFit.{Fits}
use plant_os.Mm.Vma.Areas.{IsLive, IsDisjoint, Covers, set-overlap}

-- A new area at the lowest address that fits, apart from the others, whose bytes are all found in it;
-- or the reason of the result -1.
pub data IsMapped (vmas : List Vma) (size : ℕ) : Option (ℕ × List Vma) → Type 0 where
  mapped :
      {a : ℕ} {vmas' : List Vma}
      → Fits vmas (page_up size) a
      → ((b : ℕ) → Fits vmas (page_up size) b → a ≤ b)
      → IsDisjoint vmas'
      → Covers vmas' a (a + page_up size)
      → IsMapped vmas size (some (a, vmas'))
  no_bytes : size ≡ 0 → IsMapped vmas size none
  no_room : ((b : ℕ) → ¬ Fits vmas (page_up size) b) → IsMapped vmas size none
  array_full : ((i : ℕ) → i < length vmas → (area vmas i).used ≡ true) → IsMapped vmas size none

page_up-le : (x : ℕ) → x < 2 ^ 46 → (page_up x ≤ 2 ^ 46) × (x ≤ page_up x)
unfolding page_up
page_up-le x h = (omega arith, omega arith)

-- A hint is checked at its first byte alone: where another area starts within the range, the area part
-- of SYS_MMAP, for a size from 1 to below 2^46 and with a free slot, succeeds, and the areas are no
-- longer apart.
pub mmap_area-hint_overlap :
    (vmas : List Vma) (addr_hint size flags j : ℕ)
    → mmap_base ≤ addr_hint
    → addr_hint < mmap_end
    → 0 < size
    → size < 2 ^ 46
    → vma_find vmas addr_hint ≡ none
    → (k : ℕ) → vma_alloc vmas ≡ some k
    → IsLive vmas j
    → addr_hint < (area vmas j).start
    → (area vmas j).start < addr_hint + page_up size
    → (area vmas j).start < (area vmas j).end
    → (vmas' : List Vma) × (mmap_area vmas addr_hint size flags ≡ some (addr_hint, vmas'))
      × ¬ IsDisjoint vmas'
unfolding mmap_area mmap_addr mmap_place mmap_result vma_add
mmap_area-hint_overlap vmas addr_hint size flags j base top pos small out k slot live inside reach
      nonempty =
    let nz : (size == 0) ≡ false = ground arith in
    let nonzero : (addr_hint == 0) ≡ false = ground arith in
    let in_region : (leb mmap_base addr_hint && ltb addr_hint mmap_end) ≡ true = ground arith in
    let no_wrap : add64 addr_hint (page_up size) ≡ addr_hint + page_up size =
      omega (arith, page_up-le size small) in
    (
      set vmas k (record {
        start = addr_hint;
        end = add64 addr_hint (page_up size);
        flags = flags;
        type = 0;
        shm_id = none;
        used = true;
      }),
      rw (nz, in_region, out, nonzero, vma_add, slot) refl,
      set-overlap vmas k j _ slot live refl inside (omega (arith, no_wrap)) nonempty,
    )
