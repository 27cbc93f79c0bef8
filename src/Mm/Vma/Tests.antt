-- ===== src/Mm/Vma/Tests.antt =====
-- Runs on a task with two areas in the mmap region and a free slot.
use plant_os.Base.{
  ℕ, zero, suc, ◌+◌, ◌<◌, ◌≡◌, refl, Bool, true, false, none, some, List, [], ◌∷◌, find_index,
  arith,
}
use plant_os.Mm.Vma.{Vma, page_up, vma_find, vma_alloc, vma_find_free, find_free_loop, mmap_area}
use plant_os.Mm.Vma.FirstFit.{IsUser, IsFirstFit, vma_find_free_lem}
use plant_os.Mm.Vma.Areas.{IsDisjoint}
use plant_os.Mm.Vma.Mmap.{mmap_area-hint_overlap}

abbrev at : ℕ → ℕ → Bool → Vma
at start end used = record {
  start = start;
  end = end;
  flags = 1;
  type = 0;
  shm_id = none;
  used = used;
}

abbrev two : List Vma
two = at 0x10000000 0x10002000 true ∷ at 0x10005000 0x10006000 true ∷ at 0 0 false ∷ []

two-IsUser : IsUser two
two-IsUser zero lt u = omega arith
two-IsUser (suc zero) lt u = omega arith
two-IsUser (suc (suc zero)) lt u = omega arith
two-IsUser (suc (suc (suc i))) lt u = absurd (omega arith)

-- The gap of three pages is too small for four.
behind : vma_find_free two 0x3001 ≡ some 0x10006000
unfolding vma_find_free find_free_loop page_up find_index
behind = refl

vma_find_free_lem_example : IsFirstFit two (page_up 0x3001) (vma_find_free two 0x3001)
vma_find_free_lem_example = vma_find_free_lem two 0x3001 two-IsUser (omega arith)

no_area : vma_find two 0x10004000 ≡ none
unfolding vma_find find_index
no_area = refl

third_slot : vma_alloc two ≡ some 2
unfolding vma_alloc find_index
third_slot = refl

reaches : 0x10005000 < 0x10004000 + page_up 0x2000
unfolding page_up
reaches = omega arith

mmap_area-hint_overlap_example :
    (vmas' : List Vma) × (mmap_area two 0x10004000 0x2000 1 ≡ some (0x10004000, vmas'))
    × ¬ IsDisjoint vmas'
mmap_area-hint_overlap_example =
    mmap_area-hint_overlap two 0x10004000 0x2000 1 1 (omega arith) (omega arith) (omega arith)
      (omega arith) no_area 2 third_slot (omega arith, refl) (omega arith) reaches (omega arith)
