-- ===== src/Mm/Heap/Kfree.antt =====
-- What `kfree` does to a well-formed heap.
use plant_os.Base.{
  ℕ, ◌+◌, ◌-◌, ◌%◌, ◌^◌, ◌<◌, ◌≡◌, refl, sym, ap, ◌∙◌, inl, inr, true, false, List, [], ◌∷◌, ◌==◌,
  if◌then◌else◌, ℕ_discrete, arith,
}
use mathlib.Core.Path.{subst}
use plant_os.Mm.Heap.{HeapBlock, Heap, heap_magic, header_size, mark, merge_next, merge_prev, kfree}
use plant_os.Mm.Heap.Chain.{
  Allocated, IsHeap, used-le, Allocated-le, Block, flag, address, past, Chain, used_bytes,
  used_blocks,
}
use plant_os.Mm.Heap.Free.{freed, back, release, FreeAt, freed-Chain, back-Chain, back-address}
use plant_os.Mm.Heap.Release.{IsReleased, freed-IsReleased, back-IsReleased}

-- The header of an allocation.
Allocated-header :
    (limit : ℕ) (mem : ℕ → HeapBlock) (prev a : ℕ) (bs : List Block) (c s : ℕ)
    → Chain limit mem prev a bs
    → Allocated a bs c s
    → ((mem c).magic ≡ heap_magic) × ((mem c).is_free ≡ 0) × ((mem c).size ≡ s)
Allocated-header limit mem prev a [] c s chain x = elim x [ ]
Allocated-header limit mem prev a (b ∷ bs) c s (n, chain) (inl x) =
    rw x.0 (n.magic_at, n.free_at ∙ ap flag x.1, n.size_at ∙ sym x.2)
Allocated-header limit mem prev a (b ∷ bs) c s (n, chain) (inr x) =
    Allocated-header limit mem a (past a b) bs c s chain x

-- The blocks after the second merge.
merge_prev_lem :
    (limit : ℕ) (mem : ℕ → HeapBlock) (a : ℕ) (bs : List Block) (c : ℕ)
    → limit < 2 ^ 63
    → Chain limit mem 0 a bs
    → FreeAt a bs c
    → let bs' = if a == c then bs else back a c bs in
      Chain limit (merge_prev mem c) 0 a bs'
      × (used_bytes bs' ≡ used_bytes bs)
      × (used_blocks bs' ≡ used_blocks bs)
      × ((c' s' : ℕ) → Allocated a bs c' s' → Allocated a bs' c' s')
      × ((x : ℕ) → address x bs' ≡ address x bs)
unfolding merge_prev
merge_prev_lem limit mem a [] c lim chain x = elim x [ ]
merge_prev_lem limit mem a (b ∷ bs) c lim (n, chain) x = elim (ℕ_discrete a c) [
  | yes at ↦
      let here : (a == a) ≡ true = ground arith in
      rw (sym at, here)
        (
          subst (λ m. Chain limit m 0 a (b ∷ bs)) (sym (rw (merge_prev, n.prev_at) refl))
              (n, chain),
          refl,
          refl,
          (λ c' s' y. y),
          λ x. refl,
        )
  | no other ↦
      let later : FreeAt (past a b) bs c = elim x [
        | inl y ↦ absurd (other (sym y.0))
        | inr y ↦ y
      ] in
      let there : (a == c) ≡ false = ground (arith, other) in
      let (bytes, blocks, keeps) = back-IsReleased a b bs c later in
      let (chain', kept) = back-Chain limit lim mem 0 a b bs c (n, chain) later in
      rw there (chain', bytes, blocks, keeps, λ x. back-address limit lim x a c b bs)
]

-- The blocks after both merges.
release_lem :
    (limit : ℕ) (mem : ℕ → HeapBlock) (a : ℕ) (bs : List Block) (c s : ℕ)
    → limit < 2 ^ 63
    → Chain limit mem 0 a bs
    → Allocated a bs c s
    → Chain limit (merge_prev (merge_next (mark mem c 1) c) c) 0 a (release a c bs)
      × IsReleased a bs c s (release a c bs)
      × ((x : ℕ) → address x (release a c bs) ≡ address x bs)
release_lem limit mem a bs c s lim chain x =
    let (chain', kept, shape) = freed-Chain limit lim mem 0 a bs c s chain x in
    let (r, free) = freed-IsReleased a bs c s x in
    let (chain'', bytes, blocks, keeps, shape') =
      merge_prev_lem limit (merge_next (mark mem c 1) c) a (freed a c bs) c lim chain' free in
    (
      chain'',
      record {
        bytes = omega (arith, r.bytes, bytes);
        blocks = omega (arith, r.blocks, blocks);
        keeps = λ c' s' y ne. keeps c' s' (r.keeps c' s' y ne);
      },
      λ k. shape' k ∙ shape k,
    )

-- `kfree` of the data of an allocation gives its block back: on the heap the block is free, made into one
-- with the free blocks beside it, the counters are right, and every other allocation stays.
pub kfree-IsHeap :
    (h : Heap) (bs : List Block) (c s : ℕ)
    → IsHeap h bs
    → Allocated h.heap_start bs c s
    → IsHeap (kfree h (c + header_size)) (release h.heap_start c bs)
      × IsReleased h.heap_start bs c s (release h.heap_start c bs)
unfolding kfree
kfree-IsHeap h bs c s v x =
    let limit = h.heap_start + h.heap_total_size in
    let (chain, r, shape) = release_lem limit h.mem h.heap_start bs c s v.extent v.chain x in
    let (magic, taken, size) = Allocated-header limit h.mem 0 h.heap_start bs c s v.chain x in
    let bound = (Allocated-le limit h.mem 0 h.heap_start bs c s v.chain x).1 in
    let fits = used-le limit h.mem 0 h.heap_start bs v.chain in
    let at : (c + header_size + 2 ^ 64 - header_size) % 2 ^ 64 ≡ c =
      omega (arith, bound, v.extent) in
    let some_ptr : (c + header_size == 0) ≡ false = ground arith in
    rw (kfree, some_ptr, at, magic, taken)
      (
        record {
          start_at = shape h.heap_start ∙ v.start_at;
          extent = v.extent;
          chain = chain;
          used = omega (arith, v.used, size, r.bytes, fits, v.extent);
          count = omega (arith, v.count, r.blocks, fits, v.extent);
          unlocked = v.unlocked;
        },
        r,
      )
