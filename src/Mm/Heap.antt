-- ===== src/Mm/Heap.antt =====
-- mm/heap.c. The memory gives the header that stands at an address; a header takes 32 bytes, and its
-- fields are read and written at its address alone. Address 0 is NULL.
pub mod Chain
pub mod Links
pub mod Alloc
pub mod FirstFit
pub mod Kmalloc
pub mod Free
pub mod Release
pub mod Kfree
pub mod History
mod Tests
use plant_os.Base.{
  ℕ, zero, suc, ◌+◌, ◌-◌, ◌*◌, ◌/◌, ◌%◌, ◌^◌, Bool, true, false, ◌&&◌, not, ltb, leb, ◌==◌,
  if◌then◌else◌,
}

-- `struct heap_block`
pub record HeapBlock : Type 0 where
  pub magic : ℕ
  pub is_free : ℕ
  pub size : ℕ
  pub next : ℕ
  pub prev : ℕ

abbrev pub heap_magic : ℕ
heap_magic = 0xDEADBEEF

abbrev pub header_size : ℕ
header_size = 32

-- `locked` is whether `heap_lock` is held.
pub record Heap : Type 0 where
  pub mem : ℕ → HeapBlock
  pub heap_start : ℕ
  pub heap_total_size : ℕ
  pub heap_used : ℕ
  pub heap_alloc_count : ℕ
  pub locked : Bool

unfoldable pub write_header : (ℕ → HeapBlock) → ℕ → HeapBlock → ℕ → HeapBlock
write_header mem a h x = if x == a then h else mem x

-- `if (a) a->prev = p;`
unfoldable pub set_prev : (ℕ → HeapBlock) → ℕ → ℕ → ℕ → HeapBlock
set_prev mem a p = if a == 0 then mem else write_header mem a (record (mem a) { prev = p })

-- The end of the kernel and of the bitmap of `pages` pages, on page boundaries.
unfoldable pub heap_place : ℕ → ℕ → ℕ
heap_place kernel_end pages =
    (kernel_end + 4095) / 4096 * 4096 + ((pages + 7) / 8 + 4095) / 4096 * 4096

-- The frames of the heap are marked in the bitmap by `pmm_mark_page_used` (Mm.Pmm).
unfoldable pub heap_init : (ℕ → HeapBlock) → ℕ → ℕ → Heap
heap_init mem kernel_end pages =
    let a = heap_place kernel_end pages in
    record {
      mem = write_header mem a (record {
        magic = heap_magic;
        is_free = 1;
        size = 2048 * 4096 - header_size;
        next = 0;
        prev = 0;
      });
      heap_start = a;
      heap_total_size = 2048 * 4096;
      heap_used = 0;
      heap_alloc_count = 0;
      locked = false;
    }

-- The loop of `kmalloc` as far as the block that it takes.
pub data Walk : Type 0 where
  starved : Walk
  corrupt : Walk
  full : Walk
  found : ℕ → Walk

unfoldable pub walk : ℕ → (ℕ → HeapBlock) → ℕ → ℕ → Walk
walk zero mem a size = starved
walk (suc fuel) mem a size =
    let rest = walk fuel mem (mem a).next size in
    if a == 0
    then full
    else if not ((mem a).magic == heap_magic)
    then corrupt
    else if not ((mem a).is_free == 0) && leb size (mem a).size
    then found a
    else rest

-- The rest of the block behind the `size` bytes becomes a block.
unfoldable pub split : (ℕ → HeapBlock) → ℕ → ℕ → ℕ → HeapBlock
split mem a size =
    let new_block = a + header_size + size in
    let mem' =
      set_prev
        (write_header mem new_block (record {
          magic = heap_magic;
          is_free = 1;
          size = (mem a).size - size - header_size;
          next = (mem a).next;
          prev = a;
        }))
        (mem a).next new_block in
    write_header mem' a (record (mem' a) { next = new_block; size = size })

unfoldable pub mark : (ℕ → HeapBlock) → ℕ → ℕ → ℕ → HeapBlock
mark mem a flag = write_header mem a (record (mem a) { is_free = flag })

-- What `kmalloc` does to the memory for the block at `a`.
unfoldable pub claim_block : (ℕ → HeapBlock) → ℕ → ℕ → ℕ → HeapBlock
claim_block mem a size =
    if leb ((size + header_size + 16) % 2 ^ 64) (mem a).size
    then mark (split mem a size) a 0
    else mark mem a 0

-- `(size + 15) & ~15ULL`
unfoldable pub align16 : ℕ → ℕ
align16 size = (size + 15) % 2 ^ 64 / 16 * 16

unfoldable pub take_block : Heap → ℕ → Walk → Heap × ℕ
take_block h size starved = (h, 0)
take_block h size corrupt = (record h { locked = true }, 0)
take_block h size full = (h, 0)
take_block h size (found a) = (
  record h {
    mem = claim_block h.mem a size;
    heap_used = (h.heap_used + (claim_block h.mem a size a).size) % 2 ^ 64;
    heap_alloc_count = (h.heap_alloc_count + 1) % 2 ^ 64;
  },
  a + header_size,
)

-- Entered without the lock; the address is that of the data.
unfoldable pub kmalloc : ℕ → Heap → ℕ → Heap × ℕ
kmalloc fuel h size =
    if size == 0
    then (h, 0)
    else take_block h (align16 size) (walk fuel h.mem h.heap_start (align16 size))

-- The block at `next`, which stands behind the one at `a`, joins it.
unfoldable pub join : (ℕ → HeapBlock) → ℕ → ℕ → ℕ → HeapBlock
join mem a next =
    set_prev
      (write_header mem a (record (mem a) {
        size = ((mem a).size + (header_size + (mem next).size)) % 2 ^ 64;
        next = (mem next).next;
      }))
      (mem next).next a

unfoldable pub merge_next : (ℕ → HeapBlock) → ℕ → ℕ → HeapBlock
merge_next mem a =
    if not ((mem a).next == 0) && not ((mem (mem a).next).is_free == 0)
    then join mem a (mem a).next
    else mem

unfoldable pub merge_prev : (ℕ → HeapBlock) → ℕ → ℕ → HeapBlock
merge_prev mem a =
    if not ((mem a).prev == 0) && not ((mem (mem a).prev).is_free == 0)
    then join mem (mem a).prev a
    else mem

unfoldable pub kfree : Heap → ℕ → Heap
kfree h ptr =
    let a = (ptr + 2 ^ 64 - header_size) % 2 ^ 64 in
    if ptr == 0
    then h
    else if not ((h.mem a).magic == heap_magic)
    then h
    else if not ((h.mem a).is_free == 0)
    then h
    else record h {
      mem = merge_prev (merge_next (mark h.mem a 1) a) a;
      heap_used = (h.heap_used + 2 ^ 64 - (h.mem a).size) % 2 ^ 64;
      heap_alloc_count = (h.heap_alloc_count + 2 ^ 64 - 1) % 2 ^ 64;
    }
