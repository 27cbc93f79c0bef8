-- ===== src/Mm/Pmm.antt =====
-- mm/pmm.c: the bitmap of the physical pages. The lock that `pmm_alloc_page` and `pmm_free_page` hold
-- is not modelled: each operation is one step.
pub mod Bits
pub mod Frames
pub mod Release
mod Tests
use plant_os.Base.{
  ℕ, zero, suc, ◌+◌, ◌-◌, ◌*◌, ◌/◌, ◌%◌, ◌^◌, Bool, true, false, ◌&&◌, not, Option, none, some,
  List, get_or, set, ltb, ◌==◌, if◌then◌else◌,
}

-- `bitmap`, `total_pages` and `used_pages`
pub record Pmm : Type 0 where
  pub bitmap : List ℕ
  pub total_pages : ℕ
  pub used_pages : ℕ

-- `b & (1 << k)`, as a test
unfoldable pub bit : ℕ → ℕ → Bool
bit b zero = b % 2 == 1
bit b (suc k) = bit (b / 2) k

-- `b | (1 << k)`
unfoldable pub with_bit : ℕ → ℕ → ℕ
with_bit b zero = b / 2 * 2 + 1
with_bit b (suc k) = with_bit (b / 2) k * 2 + b % 2

-- `b & ~(1 << k)`
unfoldable pub without_bit : ℕ → ℕ → ℕ
without_bit b zero = b / 2 * 2
without_bit b (suc k) = without_bit (b / 2) k * 2 + b % 2

unfoldable pub bitmap_test : List ℕ → ℕ → Bool
bitmap_test bitmap page = bit (get_or bitmap (page / 8) 0) (page % 8)

unfoldable pub bitmap_set : List ℕ → ℕ → List ℕ
bitmap_set bitmap page = set bitmap (page / 8) (with_bit (get_or bitmap (page / 8) 0) (page % 8))

unfoldable pub bitmap_clear : List ℕ → ℕ → List ℕ
bitmap_clear bitmap page =
    set bitmap (page / 8) (without_bit (get_or bitmap (page / 8) 0) (page % 8))

-- `bitmap_set(page); used_pages++;`
unfoldable pub take_page : Pmm → ℕ → Pmm
take_page p page = record p {
  bitmap = bitmap_set p.bitmap page;
  used_pages = (p.used_pages + 1) % 2 ^ 64;
}

-- `bitmap_clear(page); used_pages--;`
unfoldable pub give_page : Pmm → ℕ → Pmm
give_page p page = record p {
  bitmap = bitmap_clear p.bitmap page;
  used_pages = (p.used_pages + 2 ^ 64 - 1) % 2 ^ 64;
}

-- The rounds of the loop of `pmm_alloc_page` that are left, from page `i` on.
unfoldable pub first_free : List ℕ → ℕ → ℕ → Option ℕ
first_free bitmap zero i = none
first_free bitmap (suc n) i =
    let rest = first_free bitmap n (i + 1) in if bitmap_test bitmap i then rest else some i

-- The address of the page, 0 for NULL.
unfoldable pub pmm_alloc_page : Pmm → ℕ × Pmm
pmm_alloc_page p = elim (first_free p.bitmap p.total_pages 0) [
  | some i ↦ (i * 4096 % 2 ^ 64, take_page p i)
  | none ↦ (0, p)
]

unfoldable pub pmm_mark_page_used : Pmm → ℕ → Pmm
pmm_mark_page_used p addr =
    if ltb (addr / 4096) p.total_pages && not (bitmap_test p.bitmap (addr / 4096))
    then take_page p (addr / 4096)
    else p

unfoldable pub pmm_free_page : Pmm → ℕ → Pmm
pmm_free_page p addr =
    if ltb (addr / 4096) p.total_pages && bitmap_test p.bitmap (addr / 4096)
    then give_page p (addr / 4096)
    else p

pub pmm_get_free_pages : Pmm → ℕ
pmm_get_free_pages p = (p.total_pages + 2 ^ 64 - p.used_pages) % 2 ^ 64
