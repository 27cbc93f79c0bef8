-- ===== src/Mm/Heap/History.antt =====
-- Sequences of calls of `kmalloc` and `kfree`.
use plant_os.Base.{
  ℕ, ◌+◌, ◌-◌, ◌*◌, ◌^◌, ◌<◌, ◌≤◌, ◌≡◌, refl, sym, ap, ◌∙◌, ◌⊎◌, inl, inr, true, some, List, [],
  ◌∷◌, length, ◌==◌, arith,
}
use mathlib.Core.Path.{subst}
use mathlib.Core.Option.{none-ne-some, some-injective}
use plant_os.Mm.Heap.{
  HeapBlock, Heap, header_size, write_header, heap_place, heap_init, align16, kmalloc, kfree,
}
use plant_os.Mm.Heap.Chain.{Block, Allocated, Allocated-apart, IsHeap}
use plant_os.Mm.Heap.Alloc.{first_fit}
use plant_os.Mm.Heap.Kmalloc.{kmalloc-IsHeap}
use plant_os.Mm.Heap.Free.{release}
use plant_os.Mm.Heap.Kfree.{kfree-IsHeap}

abbrev pub whole : List Block
whole = record { free = true; size = 2048 * 4096 - header_size } ∷ []

-- The heaps after `heap_init` and any calls, with their blocks: allocations that succeed, and
-- releases of an allocation. A call of `kmalloc` that fails does not change the heap.
pub data Reach (mem : ℕ → HeapBlock) (kernel_end pages : ℕ) : Heap → List Block → Type 0 where
  begin : Reach mem kernel_end pages (heap_init mem kernel_end pages) whole
  allocate :
      (h : Heap) (bs : List Block) (size fuel ptr : ℕ) (bs' : List Block)
      → Reach mem kernel_end pages h bs
      → 0 < size
      → size + 15 < 2 ^ 64
      → length bs < fuel
      → first_fit h.heap_start bs (align16 size) ≡ some (ptr, bs')
      → Reach mem kernel_end pages (kmalloc fuel h size).0 bs'
  give_back :
      (h : Heap) (bs : List Block) (c s : ℕ)
      → Reach mem kernel_end pages h bs
      → Allocated h.heap_start bs c s
      → Reach mem kernel_end pages (kfree h (c + header_size)) (release h.heap_start c bs)

heap_init-IsHeap :
    (mem : ℕ → HeapBlock) (kernel_end pages : ℕ)
    → 0 < kernel_end
    → kernel_end < 2 ^ 62
    → pages < 2 ^ 62
    → IsHeap (heap_init mem kernel_end pages) whole
unfolding heap_init write_header heap_place
heap_init-IsHeap mem kernel_end pages pos hi hi' =
    let a = heap_place kernel_end pages in
    let here : (a == a) ≡ true = ground arith in
    record {
      start_at = refl;
      extent = omega arith;
      chain = (
        record {
          positive = omega arith;
          bound = omega arith;
          magic_at = rw here refl;
          free_at = rw here refl;
          size_at = rw here refl;
          next_at = rw here refl;
          prev_at = rw here refl;
        },
        omega arith,
      );
      used = refl;
      count = refl;
      unlocked = refl;
    }

Reach-IsHeap :
    (mem : ℕ → HeapBlock) (kernel_end pages : ℕ) (h : Heap) (bs : List Block)
    → 0 < kernel_end
    → kernel_end < 2 ^ 62
    → pages < 2 ^ 62
    → Reach mem kernel_end pages h bs
    → IsHeap h bs
Reach-IsHeap mem kernel_end pages h bs pos hi hi' begin =
    heap_init-IsHeap mem kernel_end pages pos hi hi'
Reach-IsHeap mem kernel_end pages h bs pos hi hi'
      (allocate h0 bs0 size fuel ptr bs' r some_size small enough fit) =
    let v = Reach-IsHeap mem kernel_end pages h0 bs0 pos hi hi' r in
    elim (kmalloc-IsHeap h0 bs0 size fuel v some_size small enough) [
      | inl (none_fits, _, _) ↦ absurd (none-ne-some (ptr, bs') (sym none_fits ∙ fit))
      | inr (c, s, bs'', fit', _, _, v', _) ↦
          let same = some-injective ((kmalloc fuel h0 size).1, bs'') (ptr, bs') (sym fit' ∙ fit) in
          subst (λ l. IsHeap (kmalloc fuel h0 size).0 l) (ap (λ x. x.1) same) v'
    ]
Reach-IsHeap mem kernel_end pages h bs pos hi hi' (give_back h0 bs0 c s r x) =
    (kfree-IsHeap h0 bs0 c s (Reach-IsHeap mem kernel_end pages h0 bs0 pos hi hi' r) x).0

-- After `heap_init` and any calls of `kmalloc`, with sizes from 1 to below 2^64 - 15, and of `kfree`,
-- each with an allocation that is in use, the heap is made of blocks and its counters are right, and two allocations in use are the same
-- one or apart, with their headers.
pub Reach-apart :
    (mem : ℕ → HeapBlock) (kernel_end pages : ℕ) (h : Heap) (bs : List Block) (c s c' s' : ℕ)
    → 0 < kernel_end
    → kernel_end < 2 ^ 62
    → pages < 2 ^ 62
    → Reach mem kernel_end pages h bs
    → Allocated h.heap_start bs c s
    → Allocated h.heap_start bs c' s'
    → IsHeap h bs × ((c ≡ c') ⊎ (c + header_size + s ≤ c') ⊎ (c' + header_size + s' ≤ c))
Reach-apart mem kernel_end pages h bs c s c' s' pos hi hi' r x y =
    let v = Reach-IsHeap mem kernel_end pages h bs pos hi hi' r in
    (
      v,
      Allocated-apart (h.heap_start + h.heap_total_size) h.mem 0 h.heap_start bs c s c' s' v.chain x
          y,
    )
