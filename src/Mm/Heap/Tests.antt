-- ===== src/Mm/Heap/Tests.antt =====
-- A heap with one block.
use plant_os.Base.{
  ℕ, ◌+◌, ◌≤◌, ◌≡◌, ◌⊎◌, refl, inl, inr, Bool, true, false, none, some, List, [], ◌∷◌,
  if◌then◌else◌, arith,
}
use plant_os.Mm.Heap.{
  HeapBlock, Heap, heap_magic, header_size, write_header, heap_place, heap_init, align16, kmalloc,
  kfree,
}
use plant_os.Mm.Heap.Chain.{Block, flag, IsHeap}
use plant_os.Mm.Heap.Alloc.{first_fit}
use plant_os.Mm.Heap.FirstFit.{IsNew}
use plant_os.Mm.Heap.Kmalloc.{kmalloc-IsHeap}
use plant_os.Mm.Heap.Free.{release}
use plant_os.Mm.Heap.Kfree.{kfree-IsHeap}
use plant_os.Mm.Heap.Release.{IsReleased}
use plant_os.Mm.Heap.History.{whole, Reach, begin, allocate, Reach-apart}

-- Of 1008 bytes at 4096, free or used.
abbrev header : Bool → HeapBlock
header free = record { magic = heap_magic; is_free = flag free; size = 1008; next = 0; prev = 0 }

abbrev one_block : Bool → Heap
one_block free = record {
  mem = λ a. header free;
  heap_start = 4096;
  heap_total_size = 1040;
  heap_used = if free then 0 else 1008;
  heap_alloc_count = if free then 0 else 1;
  locked = false;
}

abbrev blocks : Bool → List Block
blocks free = record { free = free; size = 1008 } ∷ []

one_block-IsHeap : (free : Bool) → IsHeap (one_block free) (blocks free)
one_block-IsHeap free = record {
  start_at = refl;
  extent = omega arith;
  chain = (
    record {
      positive = omega arith;
      bound = omega arith;
      magic_at = refl;
      free_at = refl;
      size_at = refl;
      next_at = refl;
      prev_at = refl;
    },
    refl,
  );
  used = ground arith;
  count = ground arith;
  unlocked = refl;
}

-- The place of a new allocation, and what is left of the block.
placed : (kmalloc 2 (one_block true) 100).1 ≡ 4128
unfolding kmalloc plant_os.Mm.Heap.walk plant_os.Mm.Heap.take_block align16
    plant_os.Mm.Heap.claim_block
placed = refl

split_off : ((kmalloc 2 (one_block true) 100).0.mem 4240).size ≡ 864
unfolding kmalloc plant_os.Mm.Heap.walk plant_os.Mm.Heap.take_block align16
    plant_os.Mm.Heap.claim_block plant_os.Mm.Heap.split plant_os.Mm.Heap.mark
    plant_os.Mm.Heap.set_prev write_header
split_off = refl

-- A size whose rounding wraps around gets an allocation of no bytes.
wrapped : (kmalloc 2 (one_block true) 0xffffffffffffffff).1 ≡ 4128
unfolding kmalloc plant_os.Mm.Heap.walk plant_os.Mm.Heap.take_block align16
    plant_os.Mm.Heap.claim_block
wrapped = refl

kmalloc-IsHeap_example :
    let bs = blocks true in
    let (h', ptr) = kmalloc 2 (one_block true) 100 in
    (first_fit 4096 bs (align16 100) ≡ none) × (h' ≡ one_block true) × (ptr ≡ 0)
    ⊎ (c : ℕ) × (s : ℕ) × (bs' : List Block) × (first_fit 4096 bs (align16 100) ≡ some (ptr, bs'))
      × (ptr ≡ c + header_size)
      × (100 ≤ s)
      × IsHeap h' bs'
      × IsNew 4096 bs (align16 100) bs' c s
kmalloc-IsHeap_example =
    kmalloc-IsHeap (one_block true) (blocks true) 100 2 (one_block-IsHeap true) (omega arith)
      (omega arith) (omega arith)

kfree-IsHeap_example :
    let bs = blocks false in
    IsHeap (kfree (one_block false) (4096 + header_size)) (release 4096 4096 bs)
    × IsReleased 4096 bs 4096 1008 (release 4096 4096 bs)
kfree-IsHeap_example =
    kfree-IsHeap (one_block false) (blocks false) 4096 1008 (one_block-IsHeap false)
      (inl (refl, refl, refl))

-- Two allocations on the heap of `heap_init`.
abbrev nothing : ℕ → HeapBlock
nothing a = record { magic = 0; is_free = 0; size = 0; next = 0; prev = 0 }

abbrev fresh : Heap
fresh = heap_init nothing 0x100000 1000

abbrev after_one : List Block
after_one = record { free = false; size = 112 } ∷ record { free = true; size = 8388432 } ∷ []

abbrev after_two : List Block
after_two =
    record { free = false; size = 112 }
    ∷ record { free = false; size = 208 }
    ∷ record { free = true; size = 8388192 }
    ∷ []

first_fits : first_fit fresh.heap_start whole (align16 100) ≡ some (0x101020, after_one)
unfolding heap_init heap_place align16
first_fits = refl

start_same : (kmalloc 2 fresh 100).0.heap_start ≡ 0x101000
unfolding kmalloc plant_os.Mm.Heap.walk plant_os.Mm.Heap.take_block align16 heap_init heap_place
    write_header
start_same = refl

second_fits :
    first_fit (kmalloc 2 fresh 100).0.heap_start after_one (align16 200)
    ≡ some (0x1010b0, after_two)
unfolding align16
second_fits = rw start_same refl

two_taken : Reach nothing 0x100000 1000 (kmalloc 3 (kmalloc 2 fresh 100).0 200).0 after_two
two_taken =
    allocate (kmalloc 2 fresh 100).0 after_one 200 3 0x1010b0 after_two
      (allocate fresh whole 100 2 0x101020 after_one begin (omega arith) (omega arith) (omega arith)
        first_fits)
      (omega arith) (omega arith) (omega arith) second_fits

start_same_again : (kmalloc 3 (kmalloc 2 fresh 100).0 200).0.heap_start ≡ 0x101000
unfolding kmalloc plant_os.Mm.Heap.walk plant_os.Mm.Heap.take_block align16
    plant_os.Mm.Heap.claim_block plant_os.Mm.Heap.split plant_os.Mm.Heap.mark
    plant_os.Mm.Heap.set_prev heap_init heap_place write_header
start_same_again = refl

abbrev first : ℕ
first = 0x101000

abbrev second : ℕ
second = 0x101090

Reach-apart_example :
    IsHeap (kmalloc 3 (kmalloc 2 fresh 100).0 200).0 after_two
    × ((first ≡ second)
        ⊎ (first + header_size + 112 ≤ second)
        ⊎ (second + header_size + 208 ≤ first))
Reach-apart_example =
    Reach-apart nothing 0x100000 1000 (kmalloc 3 (kmalloc 2 fresh 100).0 200).0 after_two 0x101000
      112 0x101090 208 (omega arith) (omega arith) (omega arith) two_taken
      (rw start_same_again (inl (refl, refl, refl)))
      (rw start_same_again (inr (inl (refl, refl, refl))))
