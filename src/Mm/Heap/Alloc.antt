-- ===== src/Mm/Heap/Alloc.antt =====
-- `kmalloc` as first fit on the list of the blocks.
use plant_os.Base.{
  ℕ, zero, suc, ◌+◌, ◌-◌, ◌%◌, ◌^◌, ◌<◌, ◌≤◌, ◌≡◌, refl, ap, ap₂, ◌∙◌, ◌⊎◌, inl, inr, true, false,
  ◌&&◌, not, Option, none, some, List, [], ◌∷◌, length, leb, ◌==◌, if◌then◌else◌, Bool-cases, arith,
}
use plant_os.Mm.Heap.{
  HeapBlock, heap_magic, header_size, write_header, set_prev, full, found, walk, split, claim_block,
}
use plant_os.Mm.Heap.Chain.{
  Block, address, past, Node, Chain, Node-next, Chain-same, used_bytes, used_blocks,
}
use plant_os.Mm.Heap.Links.{Chain-head, mark-Chain, write_header-at, write_header-other}

-- The block for `n` bytes, and what is left of it if there is room for a block of 16 bytes.
abbrev pub carve : Block → ℕ → List Block → List Block
carve b n bs =
    if leb (n + header_size + 16) b.size
    then record { free = false; size = n }
      ∷ record { free = true; size = b.size - n - header_size }
      ∷ bs
    else record { free = false; size = b.size } ∷ bs

-- First fit: the place of the data and the blocks afterwards.
abbrev pub behind : Block → Option (ℕ × List Block) → Option (ℕ × List Block)
behind b none = none
behind b (some (p, bs)) = some (p, b ∷ bs)

abbrev pub first_fit : ℕ → List Block → ℕ → Option (ℕ × List Block)
first_fit a [] n = none
first_fit a (b ∷ bs) n =
    let rest = behind b (first_fit (past a b) bs n) in
    if b.free && leb n b.size then some (a + header_size, carve b n bs) else rest

module _ (limit : ℕ) (lim : limit < 2 ^ 63) where
  -- A block that is split.
  split_lem :
      (mem : ℕ → HeapBlock) (prev a : ℕ) (b : Block) (bs : List Block) (n : ℕ)
      → n + header_size + 16 ≤ b.size
      → Chain limit mem prev a (b ∷ bs)
      → let mem' = split mem a n in
        Chain limit mem' prev a (
          record { free = b.free; size = n }
          ∷ record { free = true; size = b.size - n - header_size }
          ∷ bs)
        × ((x : ℕ) → x < a → mem' x ≡ mem x)
  unfolding split
  split_lem mem prev a b bs n room (node, c) =
      let a' = a + header_size + n in
      let rest : Block = record { free = true; size = b.size - n - header_size } in
      let same_end : past a b ≡ past a' rest = omega arith in
      let h : HeapBlock = record {
        magic = heap_magic;
        is_free = 1;
        size = (mem a).size - n - header_size;
        next = (mem a).next;
        prev = a;
      } in
      let mem' = set_prev (write_header mem a' h) (mem a).next a' in
      let (chain, kept, _) =
        Chain-head limit mem a a' a (mem a).next h rest bs (rw same_end at c) (omega arith)
          (omega (arith, node.bound)) refl refl (omega (arith, node.size_at)) refl
          (node.next_at ∙ ap (λ e. address e bs) same_end) refl in
      let h' : HeapBlock = record (mem' a) { next = a'; size = n } in
      let here = kept a (omega arith) in
      let at = write_header-at limit mem' a h' in
      (
        (
          record {
            positive = node.positive;
            bound = omega (arith, node.bound);
            magic_at = ap (λ h. h.magic) at ∙ ap (λ h. h.magic) here ∙ node.magic_at;
            free_at = ap (λ h. h.is_free) at ∙ ap (λ h. h.is_free) here ∙ node.free_at;
            size_at = ap (λ h. h.size) at;
            next_at = ap (λ h. h.next) at;
            prev_at = ap (λ h. h.prev) at ∙ ap (λ h. h.prev) here ∙ node.prev_at;
          },
          Chain-same limit mem' (write_header mem' a h') a a' (rest ∷ bs)
              (λ x le. write_header-other limit mem' a h' x (λ e. absurd (omega (arith, e)))) chain,
        ),
        (λ x lt.
            write_header-other limit mem' a h' x (λ e. absurd (omega (arith, e)))
            ∙ kept x (omega arith)),
      )

  -- The block that the loop stops at.
  claim_block_lem :
      (mem : ℕ → HeapBlock) (prev a : ℕ) (b : Block) (bs : List Block) (n : ℕ)
      → n ≤ b.size
      → Chain limit mem prev a (b ∷ bs)
      → let mem' = claim_block mem a n in
        Chain limit mem' prev a (carve b n bs)
        × ((x : ℕ) → x < a → mem' x ≡ mem x)
        × (used_bytes (carve b n bs) ≡ used_bytes bs + (mem' a).size)
        × (used_blocks (carve b n bs) ≡ suc (used_blocks bs))
  unfolding claim_block
  claim_block_lem mem prev a b bs n le (node, c) =
      let same : (n + header_size + 16) % 2 ^ 64 ≡ n + header_size + 16 =
        omega (arith, node.bound) in
      let cond : leb ((n + header_size + 16) % 2 ^ 64) (mem a).size
          ≡ leb (n + header_size + 16) b.size =
        ap₂ leb same node.size_at in
      elim (Bool-cases (leb (n + header_size + 16) b.size)) [
        | inl room ↦
            let (chain, kept) = split_lem mem prev a b bs n (ground arith) (node, c) in
            let (chain', kept') =
              mark-Chain limit (split mem a n) prev a (record { free = b.free; size = n })
                (record { free = true; size = b.size - n - header_size } ∷ bs) false chain in
            rw (claim_block, cond, room)
              (
                chain',
                (λ x lt. kept' x (λ e. absurd (omega (arith, e))) ∙ kept x lt),
                omega (arith, (chain'.0).size_at),
                refl,
              )
        | inr small ↦
            let (chain', kept') = mark-Chain limit mem prev a b bs false (node, c) in
            rw (claim_block, cond, small)
              (
                chain',
                (λ x lt. kept' x (λ e. absurd (omega (arith, e)))),
                omega (arith, (chain'.0).size_at),
                refl,
              )
      ]

  carve-address : (x : ℕ) (b : Block) (bs : List Block) (n : ℕ) → address x (carve b n bs) ≡ x
  carve-address x b bs n = elim (Bool-cases (leb (n + header_size + 16) b.size)) [
    | inl room ↦ rw room refl
    | inr small ↦ rw small refl
  ]

  -- The test of the loop.
  test_lem :
      (mem : ℕ → HeapBlock) (prev a : ℕ) (b : Block) (bs : List Block) (n : ℕ)
      → Node limit mem prev a b bs
      → (not ((mem a).is_free == 0) && leb n (mem a).size) ≡ (b.free && leb n b.size)
  test_lem mem prev a b bs n node = elim (Bool-cases b.free) [
    | inl e ↦ rw (node.free_at, node.size_at, e) refl
    | inr e ↦ rw (node.free_at, node.size_at, e) refl
  ]

  -- What the loop of `kmalloc` comes to on the blocks `bs`, with `fuel` rounds.
  abbrev pub Walked : ℕ → (ℕ → HeapBlock) → ℕ → ℕ → List Block → ℕ → Type 0
  Walked fuel mem prev a bs n =
      (walk fuel mem (address a bs) n ≡ full) × (first_fit a bs n ≡ none)
      ⊎ (c : ℕ) × (bs' : List Block) × (walk fuel mem (address a bs) n ≡ found c)
        × (first_fit a bs n ≡ some (c + header_size, bs'))
        × Chain limit (claim_block mem c n) prev a bs'
        × ((x : ℕ) → x < a → claim_block mem c n x ≡ mem x)
        × (used_bytes bs' ≡ used_bytes bs + (claim_block mem c n c).size)
        × (used_blocks bs' ≡ suc (used_blocks bs))
        × ((x : ℕ) → address x bs' ≡ address x bs)

  pub walk_lem :
      (fuel : ℕ) (mem : ℕ → HeapBlock) (prev a : ℕ) (bs : List Block) (n : ℕ)
      → Chain limit mem prev a bs
      → length bs < fuel
      → Walked fuel mem prev a bs n
  unfolding walk
  walk_lem zero mem prev a bs n c h = absurd (omega arith)
  walk_lem (suc fuel) mem prev a [] n c h = inl (refl, refl)
  walk_lem (suc fuel) mem prev a (b ∷ bs) n (node, c) h =
      let some_block : (a == 0) ≡ false = ground (arith, node.positive) in
      let magic : ((mem a).magic == heap_magic) ≡ true = ground (arith, node.magic_at) in
      let test = test_lem mem prev a b bs n node in
      elim (Bool-cases (b.free && leb n b.size)) [
        | inl fits ↦
            let (chain, kept, bytes, blocks) =
              claim_block_lem mem prev a b bs n (ground arith) (node, c) in
            let free : b.free ≡ true = ground arith in
            inr (
              a,
              carve b n bs,
              rw (walk, some_block, magic, test, fits) refl,
              rw fits refl,
              chain,
              kept,
              rw free bytes,
              rw free blocks,
              λ x. carve-address x b bs n,
            )
        | inr skip ↦ elim (walk_lem fuel mem a (past a b) bs n c (omega arith)) [
          | inl (e, e') ↦
              inl (rw (walk, some_block, magic, test, skip, node.next_at) e, rw (skip, e') refl)
          | inr (k, bs', e, e', chain, kept, bytes, blocks, shape) ↦ inr (
            k,
            b ∷ bs',
            rw (walk, some_block, magic, test, skip, node.next_at) e,
            rw (skip, e') refl,
            (
              Node-next limit mem (claim_block mem k n) prev a b bs bs' (kept a (omega arith))
                  (shape (past a b)) node,
              chain,
            ),
            (λ x lt. kept x (omega arith)),
            ground (arith, bytes),
            ground (arith, blocks),
            λ x. refl,
          )
        ]
      ]
