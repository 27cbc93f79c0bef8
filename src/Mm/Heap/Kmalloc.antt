-- ===== src/Mm/Heap/Kmalloc.antt =====
-- What `kmalloc` does to a well-formed heap.
use plant_os.Base.{
  ℕ, ◌+◌, ◌^◌, ◌<◌, ◌≤◌, ◌≡◌, refl, sym, ap, ◌∙◌, ◌⊎◌, inl, inr, false, none, some, List, length,
  ◌==◌, arith,
}
use plant_os.Mm.Heap.{
  Heap, header_size, Walk, found, full, walk, claim_block, align16, take_block, kmalloc,
}
use plant_os.Mm.Heap.Chain.{Block, address, IsHeap, used-le}
use plant_os.Mm.Heap.Alloc.{first_fit, walk_lem}
use plant_os.Mm.Heap.FirstFit.{IsNew, first_fit-IsNew}

-- `kmalloc` of a size that is not 0 and not among the last 15 numbers of 64 bits, on a heap of blocks,
-- ends within one round more than there are blocks. Either no free block is large enough, and it returns
-- NULL and changes nothing; or it takes the first that is, as an allocation of at least `size` bytes
-- beside the earlier ones, which all stay, on a heap of blocks again whose counters are right.
pub kmalloc-IsHeap :
    (h : Heap) (bs : List Block) (size fuel : ℕ)
    → IsHeap h bs
    → 0 < size
    → size + 15 < 2 ^ 64
    → length bs < fuel
    → let (h', ptr) = kmalloc fuel h size in
      (first_fit h.heap_start bs (align16 size) ≡ none) × (h' ≡ h) × (ptr ≡ 0)
      ⊎ (c : ℕ) × (s : ℕ) × (bs' : List Block) × (first_fit h.heap_start bs (align16 size)
          ≡ some (ptr, bs'))
        × (ptr ≡ c + header_size)
        × (size ≤ s)
        × IsHeap h' bs'
        × IsNew h.heap_start bs (align16 size) bs' c s
unfolding kmalloc take_block align16
kmalloc-IsHeap h bs size fuel v pos small enough =
    let limit = h.heap_start + h.heap_total_size in
    let n = align16 size in
    let le : size ≤ n = omega arith in
    let positive : (size == 0) ≡ false = ground arith in
    let start = λ (w : Walk) (e : walk fuel h.mem (address h.heap_start bs) n ≡ w).
      ap (λ a. walk fuel h.mem a n) (sym v.start_at) ∙ e in
    elim (walk_lem limit v.extent fuel h.mem 0 h.heap_start bs n v.chain enough) [
      | inl (e, e') ↦
          inl (
            e',
            rw (kmalloc, positive, start full e) refl,
            rw (kmalloc, positive, start full e) refl,
          )
      | inr (c, bs', e, e', chain, kept, bytes, blocks, shape) ↦
          let (s, new) = first_fit-IsNew h.heap_start bs n c bs' e' in
          let fits = used-le limit (claim_block h.mem c n) 0 h.heap_start bs' chain in
          rw (kmalloc, positive, start (found c) e)
            (inr (
              c,
              s,
              bs',
              e',
              refl,
              omega (arith, le, new.enough),
              record {
                start_at = shape h.heap_start ∙ v.start_at;
                extent = v.extent;
                chain = chain;
                used = omega (arith, v.used, bytes, fits, v.extent);
                count = omega (arith, v.count, blocks, fits, v.extent);
                unlocked = v.unlocked;
              },
              new,
            ))
    ]
