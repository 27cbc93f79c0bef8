-- ===== src/Mm/Heap/Chain.antt =====
-- The heap as the list of its blocks in the order of their addresses, linked both ways.
use plant_os.Base.{
  ℕ, suc, ◌+◌, ◌*◌, ◌^◌, ◌<◌, ◌≤◌, ◌≡◌, sym, ap, ◌∙◌, ◌⊎◌, inl, inr, Bool, true, false, List, [],
  ◌∷◌, if◌then◌else◌, arith,
}
use plant_os.Mm.Heap.{HeapBlock, Heap, heap_magic, header_size}

-- A block of the abstract heap.
pub record Block : Type 0 where
  pub free : Bool
  pub size : ℕ

abbrev pub flag : Bool → ℕ
flag true = 1
flag false = 0

-- The address `a`, or NULL behind the last block.
abbrev pub address : ℕ → List Block → ℕ
address a [] = 0
address a (b ∷ bs) = a

abbrev pub past : ℕ → Block → ℕ
past a b = a + header_size + b.size

-- The header at `a` is that of the block `b` before `bs` and behind the header at `prev`.
pub record Node (limit : ℕ) (mem : ℕ → HeapBlock) (prev a : ℕ) (b : Block) (bs : List Block)
    : Type 0 where
  pub positive : 0 < a
  pub bound : past a b ≤ limit
  pub magic_at : (mem a).magic ≡ heap_magic
  pub free_at : (mem a).is_free ≡ flag b.free
  pub size_at : (mem a).size ≡ b.size
  pub next_at : (mem a).next ≡ address (past a b) bs
  pub prev_at : (mem a).prev ≡ prev

-- The blocks stand one behind the other from `a` on, end at `limit`, and are linked both ways.
abbrev pub Chain : ℕ → (ℕ → HeapBlock) → ℕ → ℕ → List Block → Type 0
Chain limit mem prev a [] = a ≡ limit
Chain limit mem prev a (b ∷ bs) = Node limit mem prev a b bs × Chain limit mem a (past a b) bs

-- What the counters count.
abbrev pub used_bytes : List Block → ℕ
used_bytes [] = 0
used_bytes (b ∷ bs) = let rest = used_bytes bs in if b.free then rest else b.size + rest

abbrev pub used_blocks : List Block → ℕ
used_blocks [] = 0
used_blocks (b ∷ bs) = let rest = used_blocks bs in if b.free then rest else suc rest

-- Two blocks made into one.
abbrev pub joined : Block → Block → Block
joined b b' = record { free = b.free; size = b.size + (header_size + b'.size) }

-- The header at `c` is that of a used block of `s` bytes.
abbrev pub Allocated : ℕ → List Block → ℕ → ℕ → Type 0
Allocated a [] c s = ⊥
Allocated a (b ∷ bs) c s = ((c ≡ a) × (b.free ≡ false) × (s ≡ b.size)) ⊎ Allocated (past a b) bs c s

-- The heap holds the blocks `bs`, and its counters are right.
pub record IsHeap (h : Heap) (bs : List Block) : Type 0 where
  pub start_at : address h.heap_start bs ≡ h.heap_start
  pub extent : h.heap_start + h.heap_total_size < 2 ^ 63
  pub chain : Chain (h.heap_start + h.heap_total_size) h.mem 0 h.heap_start bs
  pub used : h.heap_used ≡ used_bytes bs
  pub count : h.heap_alloc_count ≡ used_blocks bs
  pub unlocked : h.locked ≡ false

module _ (limit : ℕ) where
  pub Node-same :
      (mem mem' : ℕ → HeapBlock) (prev a : ℕ) (b : Block) (bs : List Block)
      → mem' a ≡ mem a
      → Node limit mem prev a b bs
      → Node limit mem' prev a b bs
  Node-same mem mem' prev a b bs e n = record {
    positive = n.positive;
    bound = n.bound;
    magic_at = ap (λ h. h.magic) e ∙ n.magic_at;
    free_at = ap (λ h. h.is_free) e ∙ n.free_at;
    size_at = ap (λ h. h.size) e ∙ n.size_at;
    next_at = ap (λ h. h.next) e ∙ n.next_at;
    prev_at = ap (λ h. h.prev) e ∙ n.prev_at;
  }

  -- The blocks from `a` on see no write before `a`.
  pub Chain-same :
      (mem mem' : ℕ → HeapBlock) (prev a : ℕ) (bs : List Block)
      → ((x : ℕ) → a ≤ x → mem' x ≡ mem x)
      → Chain limit mem prev a bs
      → Chain limit mem' prev a bs
  Chain-same mem mem' prev a [] e c = c
  Chain-same mem mem' prev a (b ∷ bs) e (n, c) = (
    Node-same mem mem' prev a b bs (e a (omega arith)) n,
    Chain-same mem mem' a (past a b) bs (λ x h. e x (omega arith)) c,
  )

  -- The blocks with their headers fit between `a` and the end.
  pub used-le :
      (mem : ℕ → HeapBlock) (prev a : ℕ) (bs : List Block)
      → Chain limit mem prev a bs
      → a + used_bytes bs + header_size * used_blocks bs ≤ limit
  used-le mem prev a [] c = omega (arith, c)
  used-le mem prev a (b ∷ bs) (n, c) = ground (arith, used-le mem a (past a b) bs c)

  -- An allocation stands from `a` on and before the end.
  pub Allocated-le :
      (mem : ℕ → HeapBlock) (prev a : ℕ) (bs : List Block) (c s : ℕ)
      → Chain limit mem prev a bs
      → Allocated a bs c s
      → (a ≤ c) × (c + header_size + s ≤ limit)
  Allocated-le mem prev a [] c s chain x = elim x [ ]
  Allocated-le mem prev a (b ∷ bs) c s (n, chain) (inl x) =
      (omega (arith, x.0), omega (arith, x.0, x.2, n.bound))
  Allocated-le mem prev a (b ∷ bs) c s (n, chain) (inr x) =
      let (lo, hi) = Allocated-le mem a (past a b) bs c s chain x in (omega (arith, lo), hi)

  -- Two allocations are the same or apart.
  pub Allocated-apart :
      (mem : ℕ → HeapBlock) (prev a : ℕ) (bs : List Block) (c s c' s' : ℕ)
      → Chain limit mem prev a bs
      → Allocated a bs c s
      → Allocated a bs c' s'
      → (c ≡ c') ⊎ (c + header_size + s ≤ c') ⊎ (c' + header_size + s' ≤ c)
  Allocated-apart mem prev a [] c s c' s' chain x y = elim x [ ]
  Allocated-apart mem prev a (b ∷ bs) c s c' s' (n, chain) (inl x) (inl y) = inl (x.0 ∙ sym y.0)
  Allocated-apart mem prev a (b ∷ bs) c s c' s' (n, chain) (inl x) (inr y) =
      inr (inl (omega (arith, x.0, x.2, (Allocated-le mem a (past a b) bs c' s' chain y).0)))
  Allocated-apart mem prev a (b ∷ bs) c s c' s' (n, chain) (inr x) (inl y) =
      inr (inr (omega (arith, y.0, y.2, (Allocated-le mem a (past a b) bs c s chain x).0)))
  Allocated-apart mem prev a (b ∷ bs) c s c' s' (n, chain) (inr x) (inr y) =
      Allocated-apart mem a (past a b) bs c s c' s' chain x y

  -- The header before a changed list that begins at the same place.
  pub Node-next :
      (mem mem' : ℕ → HeapBlock) (prev a : ℕ) (b : Block) (bs bs' : List Block)
      → mem' a ≡ mem a
      → address (past a b) bs' ≡ address (past a b) bs
      → Node limit mem prev a b bs
      → Node limit mem' prev a b bs'
  Node-next mem mem' prev a b bs bs' e shape n =
      let same = Node-same mem mem' prev a b bs e n in
      record {
        positive = n.positive;
        bound = n.bound;
        magic_at = same.magic_at;
        free_at = same.free_at;
        size_at = same.size_at;
        next_at = same.next_at ∙ sym shape;
        prev_at = same.prev_at;
      }
