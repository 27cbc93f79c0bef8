-- ===== src/Mm/Pmm/Tests.antt =====
-- Runs on sixteen pages, of which the first twelve are used.
use plant_os.Base.{◌≡◌, refl, false, [], ◌∷◌, arith}
use plant_os.Mm.Pmm.{
  Pmm, bit, bitmap_test, first_free, pmm_alloc_page, take_page, bitmap_set, with_bit,
}
use plant_os.Mm.Pmm.Frames.{used_below, IsCounted, IsAllocated, pmm_alloc_page-IsAllocated}

abbrev small : Pmm
small = record { bitmap = 0xff ∷ 0x0f ∷ []; total_pages = 16; used_pages = 12 }

small-IsCounted : IsCounted small
unfolding used_below bitmap_test bit
small-IsCounted = record { room = omega arith; counted = refl; small = omega arith }

thirteenth : (pmm_alloc_page small).0 ≡ 0xc000
unfolding pmm_alloc_page first_free bitmap_test bit
thirteenth = refl

marked : (pmm_alloc_page small).1.bitmap ≡ 0xff ∷ 0x1f ∷ []
unfolding pmm_alloc_page first_free bitmap_test bit take_page bitmap_set with_bit
marked = refl

free_page : bitmap_test small.bitmap 13 ≡ false
unfolding bitmap_test bit
free_page = refl

pmm_alloc_page-IsAllocated_example : IsAllocated small (pmm_alloc_page small)
pmm_alloc_page-IsAllocated_example = pmm_alloc_page-IsAllocated small small-IsCounted
