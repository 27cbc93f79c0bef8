-- ===== src/Mm/Heap/Free.antt =====
-- `kfree` as an operation on the list of the blocks.
use plant_os.Base.{
  ℕ, ◌^◌, ◌<◌, ◌≡◌, refl, sym, ap, ◌∙◌, ◌⊎◌, inl, inr, Bool, true, false, List, [], ◌∷◌, ◌==◌,
  if◌then◌else◌, Bool-cases, ℕ_discrete, arith,
}
use mathlib.Core.Path.{subst}
use plant_os.Mm.Heap.{HeapBlock, mark, merge_next, merge_prev}
use plant_os.Mm.Heap.Chain.{Allocated, Block, flag, address, past, Chain, Node-next, joined}
use plant_os.Mm.Heap.Links.{join-Chain, mark-Chain}

-- The block and the next one, made into one if the next one is free.
abbrev pub join_free : Block → List Block → List Block
join_free b [] = b ∷ []
join_free b (b' ∷ bs) = if b'.free then joined b b' ∷ bs else b ∷ b' ∷ bs

-- The block at `c` is free, and has joined the next one.
abbrev pub freed : ℕ → ℕ → List Block → List Block
freed a c [] = []
freed a c (b ∷ bs) =
    let rest = freed (past a b) c bs in
    if a == c then join_free (record b { free = true }) bs else b ∷ rest

-- The block at `c` has joined the one before it, if that is free.
abbrev pub back : ℕ → ℕ → List Block → List Block
back a c [] = []
back a c (b ∷ []) = b ∷ []
back a c (b ∷ b' ∷ bs) =
    let rest = back (past a b) c (b' ∷ bs) in
    if past a b == c then (if b.free then joined b b' ∷ bs else b ∷ b' ∷ bs) else b ∷ rest

abbrev pub release : ℕ → ℕ → List Block → List Block
release a c bs = if a == c then freed a c bs else back a c (freed a c bs)

-- A free block stands at `c`.
abbrev pub FreeAt : ℕ → List Block → ℕ → Type 0
FreeAt a [] c = ⊥
FreeAt a (b ∷ bs) c = ((c ≡ a) × (b.free ≡ true)) ⊎ FreeAt (past a b) bs c

module _ (limit : ℕ) (lim : limit < 2 ^ 63) where
  -- A chain after writes at `a` and behind.
  abbrev pub Kept : (ℕ → HeapBlock) → ℕ → ℕ → (ℕ → HeapBlock) → List Block → Type 0
  Kept mem prev a mem' bs = Chain limit mem' prev a bs × ((x : ℕ) → x < a → mem' x ≡ mem x)

  Kept-eq :
      (mem : ℕ → HeapBlock) (prev a : ℕ) {mem' mem'' : ℕ → HeapBlock} {bs bs' : List Block}
      → mem' ≡ mem''
      → bs ≡ bs'
      → Kept mem prev a mem'' bs'
      → Kept mem prev a mem' bs
  Kept-eq mem prev a {mem'} {mem''} {bs} {bs'} e e' k =
      subst (λ m. Kept mem prev a m bs) (sym e) (subst (λ l. Kept mem prev a mem'' l) (sym e') k)

  merge_next-Chain :
      (mem : ℕ → HeapBlock) (prev a : ℕ) (b : Block) (bs : List Block)
      → Chain limit mem prev a (b ∷ bs)
      → Kept mem prev a (merge_next mem a) (join_free b bs)
  unfolding merge_next
  merge_next-Chain mem prev a b [] (n, c) = rw (merge_next, n.next_at) ((n, c), λ x lt. refl)
  merge_next-Chain mem prev a b (b' ∷ bs) (n, (n', c)) =
      let some_block : (past a b == 0) ≡ false = ground arith in
      let free_at = λ (f : Bool) (e : b'.free ≡ f). n'.free_at ∙ ap flag e in
      elim (Bool-cases b'.free) [
        | inl e ↦
            Kept-eq mem prev a {bs' = joined b b' ∷ bs}
              (rw (merge_next, n.next_at, some_block, free_at true e) refl) (rw e refl)
              (join-Chain limit mem prev a b b' bs lim (n, (n', c)))
        | inr e ↦
            Kept-eq mem prev a {bs' = b ∷ b' ∷ bs}
              (rw (merge_next, n.next_at, some_block, free_at false e) refl) (rw e refl)
              ((n, (n', c)), λ x lt. refl)
      ]

  join_free-address : (x : ℕ) (b : Block) (bs : List Block) → address x (join_free b bs) ≡ x
  join_free-address x b [] = refl
  join_free-address x b (b' ∷ bs) = elim (Bool-cases b'.free) [
    | inl e ↦ rw e refl
    | inr e ↦ rw e refl
  ]

  -- The block is marked, and joins the next one.
  pub freed-Chain :
      (mem : ℕ → HeapBlock) (prev a : ℕ) (bs : List Block) (c s : ℕ)
      → Chain limit mem prev a bs
      → Allocated a bs c s
      → let mem' = merge_next (mark mem c 1) c in
        Chain limit mem' prev a (freed a c bs)
        × ((x : ℕ) → x < a → mem' x ≡ mem x)
        × ((x : ℕ) → address x (freed a c bs) ≡ address x bs)
  freed-Chain mem prev a [] c s chain x = elim x [ ]
  freed-Chain mem prev a (b ∷ bs) c s (n, chain) x = elim (ℕ_discrete a c) [
    | yes at ↦
        let (chain', kept') = mark-Chain limit mem prev a b bs true (n, chain) in
        let (chain'', kept'') =
          merge_next-Chain (mark mem a 1) prev a (record b { free = true }) bs chain' in
        let here : (a == a) ≡ true = ground arith in
        rw (sym at, here)
          (
            chain'',
            (λ x lt. kept'' x lt ∙ kept' x (λ e. absurd (omega (arith, e)))),
            λ x. join_free-address x (record b { free = true }) bs,
          )
    | no other ↦
        let later : Allocated (past a b) bs c s = elim x [
          | inl y ↦ absurd (other (sym y.0))
          | inr y ↦ y
        ] in
        let there : (a == c) ≡ false = ground (arith, other) in
        let (chain', kept, shape) = freed-Chain mem a (past a b) bs c s chain later in
        rw there (
          (
            Node-next limit mem (merge_next (mark mem c 1) c) prev a b bs (freed (past a b) c bs)
                (kept a (omega arith)) (shape (past a b)) n,
            chain',
          ),
          (λ x lt. kept x (omega arith)),
          λ x. refl,
        )
  ]

  pub back-address : (x a c : ℕ) (b : Block) (bs : List Block) → address x (back a c (b ∷ bs)) ≡ x
  back-address x a c b [] = refl
  back-address x a c b (b' ∷ bs) = ground arith

  -- The block joins the previous one.
  pub back-Chain :
      (mem : ℕ → HeapBlock) (prev a : ℕ) (b : Block) (bs : List Block) (c : ℕ)
      → Chain limit mem prev a (b ∷ bs)
      → FreeAt (past a b) bs c
      → Kept mem prev a (merge_prev mem c) (back a c (b ∷ bs))
  unfolding merge_prev
  back-Chain mem prev a b [] c chain x = elim x [ ]
  back-Chain mem prev a b (b' ∷ bs) c (n, (n', chain)) x = elim (ℕ_discrete (past a b) c) [
    | yes at ↦
        let here : (past a b == past a b) ≡ true = ground arith in
        let some_block : (a == 0) ≡ false = ground (arith, n.positive) in
        let free_at = λ (f : Bool) (e : b.free ≡ f). n.free_at ∙ ap flag e in
        rw (sym at, here)
          (elim (Bool-cases b.free) [
            | inl e ↦
                Kept-eq mem prev a {bs' = joined b b' ∷ bs}
                  (rw (merge_prev, n'.prev_at, some_block, free_at true e) refl) (rw e refl)
                  (join-Chain limit mem prev a b b' bs lim (n, (n', chain)))
            | inr e ↦
                Kept-eq mem prev a {bs' = b ∷ b' ∷ bs}
                  (rw (merge_prev, n'.prev_at, some_block, free_at false e) refl) (rw e refl)
                  ((n, (n', chain)), λ x lt. refl)
          ])
    | no other ↦
        let later : FreeAt (past (past a b) b') bs c = elim x [
          | inl y ↦ absurd (other (sym y.0))
          | inr y ↦ y
        ] in
        let there : (past a b == c) ≡ false = ground (arith, other) in
        let (chain', kept) = back-Chain mem a (past a b) b' bs c (n', chain) later in
        rw there (
          (
            Node-next limit mem (merge_prev mem c) prev a b (b' ∷ bs) (back (past a b) c (b' ∷ bs))
                (kept a (omega arith)) (back-address (past a b) (past a b) c b' bs) n,
            chain',
          ),
          λ x lt. kept x (omega arith),
        )
  ]
