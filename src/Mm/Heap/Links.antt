-- ===== src/Mm/Heap/Links.antt =====
-- How the writes of mm/heap.c keep the links between the blocks.
use plant_os.Base.{
  ℕ, ◌+◌, ◌%◌, ◌^◌, ◌<◌, ◌≤◌, ◌≡◌, ◌≢◌, refl, sym, ap, ◌∙◌, Bool, true, false, List, [], ◌∷◌, ◌==◌,
  arith,
}
use mathlib.Core.Path.{subst}
use plant_os.Mm.Heap.{HeapBlock, heap_magic, header_size, write_header, set_prev, mark, join}
use plant_os.Mm.Heap.Chain.{Block, flag, address, past, Chain, joined, Chain-same}

module _ (limit : ℕ) where
  -- Blocks that follow another header.
  pub Chain-set_prev :
      (mem : ℕ → HeapBlock) (prev a : ℕ) (bs : List Block) (prev' : ℕ)
      → Chain limit mem prev a bs
      → Chain limit (set_prev mem (address a bs) prev') prev' a bs
  unfolding set_prev write_header
  Chain-set_prev mem prev a [] prev' c = c
  Chain-set_prev mem prev a (b ∷ bs) prev' (n, c) =
      let some_block : (a == 0) ≡ false = ground (arith, n.positive) in
      let here : (a == a) ≡ true = ground arith in
      let at : set_prev mem a prev' a ≡ record (mem a) { prev = prev' } =
        rw (set_prev, some_block, write_header, here) refl in
      (
        record {
          positive = n.positive;
          bound = n.bound;
          magic_at = ap (λ h. h.magic) at ∙ n.magic_at;
          free_at = ap (λ h. h.is_free) at ∙ n.free_at;
          size_at = ap (λ h. h.size) at ∙ n.size_at;
          next_at = ap (λ h. h.next) at ∙ n.next_at;
          prev_at = ap (λ h. h.prev) at;
        },
        Chain-same limit mem (set_prev mem a prev') a (past a b) bs (λ x h. ground arith) c,
      )

  -- It writes to that header alone.
  pub set_prev-same :
      (mem : ℕ → HeapBlock) (a : ℕ) (bs : List Block) (prev' x : ℕ)
      → x < a
      → set_prev mem (address a bs) prev' x ≡ mem x
  unfolding set_prev write_header
  set_prev-same mem a [] prev' x h = refl
  set_prev-same mem a (b ∷ bs) prev' x h = ground arith

  pub write_header-at : (mem : ℕ → HeapBlock) (a : ℕ) (h : HeapBlock) → write_header mem a h a ≡ h
  unfolding write_header
  write_header-at mem a h = let here : (a == a) ≡ true = ground arith in rw here refl

  pub write_header-other :
      (mem : ℕ → HeapBlock) (a : ℕ) (h : HeapBlock) (x : ℕ) → x ≢ a → write_header mem a h x ≡ mem x
  unfolding write_header
  write_header-other mem a h x ne = ground (arith, ne)

  -- A new header at the head of a chain whose other blocks stay.
  pub Chain-head :
      (mem : ℕ → HeapBlock) (prev a prev' next : ℕ) (h : HeapBlock) (b : Block) (bs : List Block)
      → Chain limit mem prev' (past a b) bs
      → 0 < a
      → past a b ≤ limit
      → h.magic ≡ heap_magic
      → h.is_free ≡ flag b.free
      → h.size ≡ b.size
      → h.next ≡ next
      → next ≡ address (past a b) bs
      → h.prev ≡ prev
      → let mem' = set_prev (write_header mem a h) next a in
        Chain limit mem' prev a (b ∷ bs) × ((x : ℕ) → x < a → mem' x ≡ mem x) × (mem' a ≡ h)
  Chain-head mem prev a prev' next h b bs c pos lim m f s n e p =
      let written = write_header mem a h in
      let to : set_prev written next a ≡ set_prev written (address (past a b) bs) a =
        ap (λ k. set_prev written k a) e in
      let mem' = set_prev written next a in
      let same : (x : ℕ) → past a b ≤ x → written x ≡ mem x =
        λ x le. write_header-other mem a h x (λ e. absurd (omega (arith, e))) in
      let at : mem' a ≡ h =
        ap (λ m. m a) to
        ∙ set_prev-same written (past a b) bs a a (omega arith)
        ∙ write_header-at mem a h in
      (
        (
          record {
            positive = pos;
            bound = lim;
            magic_at = ap (λ h. h.magic) at ∙ m;
            free_at = ap (λ h. h.is_free) at ∙ f;
            size_at = ap (λ h. h.size) at ∙ s;
            next_at = ap (λ h. h.next) at ∙ n ∙ e;
            prev_at = ap (λ h. h.prev) at ∙ p;
          },
          subst (λ m. Chain limit m a (past a b) bs) (sym to)
              (Chain-set_prev written prev' (past a b) bs a
                (Chain-same limit mem written prev' (past a b) bs same c)),
        ),
        (λ x lt.
            ap (λ m. m x) to
            ∙ set_prev-same written (past a b) bs a x (omega arith)
            ∙ write_header-other mem a h x (λ e. absurd (omega (arith, e)))),
        at,
      )

  pub join-Chain :
      (mem : ℕ → HeapBlock) (prev a : ℕ) (b b' : Block) (bs : List Block)
      → limit < 2 ^ 63
      → Chain limit mem prev a (b ∷ b' ∷ bs)
      → let mem' = join mem a (past a b) in
        Chain limit mem' prev a (joined b b' ∷ bs) × ((x : ℕ) → x < a → mem' x ≡ mem x)
  unfolding join
  join-Chain mem prev a b b' bs lim (n, (n', c)) =
      let same_end : past (past a b) b' ≡ past a (joined b b') = omega arith in
      let h : HeapBlock = record (mem a) {
        size = ((mem a).size + (header_size + (mem (past a b)).size)) % 2 ^ 64;
        next = (mem (past a b)).next;
      } in
      let next : h.next ≡ address (past a (joined b b')) bs =
        n'.next_at ∙ ap (λ e. address e bs) same_end in
      let size : h.size ≡ (joined b b').size = omega (arith, n.size_at, n'.size_at, n'.bound) in
      let (chain, kept, _) =
        Chain-head mem prev a (past a b) h.next h (joined b b') bs (rw same_end at c) n.positive
          (omega (arith, n'.bound)) n.magic_at n.free_at size refl next n.prev_at in
      (chain, kept)

  -- A block that is marked as used or as free.
  pub mark-Chain :
      (mem : ℕ → HeapBlock) (prev a : ℕ) (b : Block) (bs : List Block) (free : Bool)
      → Chain limit mem prev a (b ∷ bs)
      → let mem' = mark mem a (flag free) in
        Chain limit mem' prev a (record b { free = free } ∷ bs) × ((x : ℕ) → x ≢ a → mem' x ≡ mem x)
  unfolding mark
  mark-Chain mem prev a b bs free (n, c) =
      let at : mark mem a (flag free) a ≡ record (mem a) { is_free = flag free } =
        write_header-at mem a (record (mem a) { is_free = flag free }) in
      let other = write_header-other mem a (record (mem a) { is_free = flag free }) in
      (
        (
          record {
            positive = n.positive;
            bound = n.bound;
            magic_at = ap (λ h. h.magic) at ∙ n.magic_at;
            free_at = ap (λ h. h.is_free) at;
            size_at = ap (λ h. h.size) at ∙ n.size_at;
            next_at = ap (λ h. h.next) at ∙ n.next_at;
            prev_at = ap (λ h. h.prev) at ∙ n.prev_at;
          },
          Chain-same limit mem (mark mem a (flag free)) a (past a b) bs
              (λ x le. other x (λ e. absurd (omega (arith, e)))) c,
        ),
        other,
      )
