-- ===== src/Mm/Vma.antt =====
-- mm/vma.c, the areas of a task, and the part of SYS_MMAP in cpu/syscall.c that chooses an area. A
-- pointer into the array is the index of its slot; `uint64_t` sums have their wrap-around.
pub mod FirstFit
pub mod Areas
pub mod Mmap
pub mod Remove
mod Tests
use plant_os.Base.{
  ℕ, zero, suc, ◌+◌, ◌*◌, ◌/◌, ◌%◌, ◌^◌, Bool, true, false, ◌&&◌, not, Option, none, some, List, [],
  ◌∷◌, get_or, set, replicate, map, find_index, ltb, leb, ◌==◌, if◌then◌else◌,
}

-- `struct vma`; `none` is the `shm_id` -1.
pub record Vma : Type 0 where
  pub start : ℕ
  pub end : ℕ
  pub flags : ℕ
  pub type : ℕ
  pub shm_id : Option ℕ
  pub used : Bool

abbrev pub vma_max_per_task : ℕ
vma_max_per_task = 32

abbrev pub mmap_base : ℕ
mmap_base = 0x10000000

abbrev pub mmap_end : ℕ
mmap_end = 0x70000000

abbrev pub page_size : ℕ
page_size = 4096

abbrev pub add64 : ℕ → ℕ → ℕ
add64 a b = (a + b) % 2 ^ 64

-- `(x + PAGE_SIZE - 1) & ~(PAGE_SIZE - 1)`
unfoldable pub page_up : ℕ → ℕ
page_up x = add64 x 4095 / page_size * page_size

-- What `memset` to 0 makes of a slot.
pub blank : Vma
blank = record { start = 0; end = 0; flags = 0; type = 0; shm_id = some 0; used = false }

abbrev pub area : List Vma → ℕ → Vma
area vmas i = get_or vmas i blank

pub vma_init_list : List Vma
vma_init_list = replicate vma_max_per_task blank

unfoldable pub vma_alloc : List Vma → Option ℕ
vma_alloc vmas = find_index (λ v. not v.used) vmas

abbrev pub holds : ℕ → Vma → Bool
holds addr v = v.used && (leb v.start addr && ltb addr v.end)

unfoldable pub vma_find : List Vma → ℕ → Option ℕ
vma_find vmas addr = find_index (holds addr) vmas

-- `none` is the result -1.
unfoldable pub vma_add : List Vma → ℕ → ℕ → ℕ → ℕ → Option (List Vma)
vma_add vmas start end flags type = elim (vma_alloc vmas) [
  | none ↦ none
  | some i ↦ some (
      set vmas i (record {
        start = start;
        end = end;
        flags = flags;
        type = type;
        shm_id = none;
        used = true;
      }))
]

-- The body of the loop of `vma_remove`.
unfoldable pub remove_inside : ℕ → ℕ → Vma → Vma
remove_inside start end v =
    if v.used && (leb start v.start && leb v.end end) then record v { used = false } else v

unfoldable pub vma_remove : List Vma → ℕ → ℕ → List Vma
vma_remove vmas start end = map (remove_inside start end) vmas

-- `vmas[i].used`, and the area overlaps `[addr, addr + size)`.
abbrev pub overlaps : ℕ → ℕ → Vma → Bool
overlaps addr size v = v.used && (ltb addr v.end && ltb v.start (add64 addr size))

-- The rounds of the loop of `vma_find_free`, at most as many as the first argument says; `none` is
-- more than that.
unfoldable pub find_free_loop : ℕ → List Vma → ℕ → ℕ → Option ℕ
find_free_loop zero vmas size addr = none
find_free_loop (suc n) vmas size addr =
    if leb (add64 addr size) mmap_end
    then (elim (find_index (overlaps addr size) vmas) [
      | some i ↦ find_free_loop n vmas size (page_up (area vmas i).end)
      | none ↦ some addr
    ])
    else some 0

-- One round for each page of the mmap region, and two.
abbrev pub rounds : ℕ
rounds = 393218

unfoldable pub vma_find_free : List Vma → ℕ → Option ℕ
vma_find_free vmas size = find_free_loop rounds vmas (page_up size) mmap_base

-- The address that SYS_MMAP takes: the hint, if it is in the region and in no area.
unfoldable pub mmap_addr : List Vma → ℕ → ℕ → Option ℕ
mmap_addr vmas addr_hint length =
    if leb mmap_base addr_hint && ltb addr_hint mmap_end
    then (elim (vma_find vmas addr_hint) [
      | none ↦ some addr_hint
      | some i ↦ vma_find_free vmas length
    ])
    else vma_find_free vmas length

-- SYS_MMAP after the choice of the address, and its result.
unfoldable pub mmap_result : ℕ → Option (List Vma) → Option (ℕ × List Vma)
mmap_result addr none = none
mmap_result addr (some vmas) = some (addr, vmas)

unfoldable pub mmap_place : List Vma → ℕ → ℕ → Option ℕ → Option (ℕ × List Vma)
mmap_place vmas length flags none = none
mmap_place vmas length flags (some addr) =
    if addr == 0 then none else mmap_result addr (vma_add vmas addr (add64 addr length) flags 0)

-- SYS_MMAP behind its test of cr3 and is_user, up to the allocation of the pages: the address and the areas, or the result -1. The
-- flags are those that the protection asks for, and the type is VMA_TYPE_ANON.
unfoldable pub mmap_area : List Vma → ℕ → ℕ → ℕ → Option (ℕ × List Vma)
mmap_area vmas addr_hint length flags =
    if length == 0
    then none
    else mmap_place vmas (page_up length) flags (mmap_addr vmas addr_hint (page_up length))
