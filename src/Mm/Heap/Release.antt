-- ===== src/Mm/Heap/Release.antt =====
-- What a release does to the list of the blocks.
use plant_os.Base.{
  ℕ, suc, ◌+◌, ◌≤◌, ◌≡◌, ◌≢◌, refl, sym, ap, ◌∙◌, inl, inr, true, false, List, [], ◌∷◌, ◌==◌,
  Bool-cases, ℕ_discrete, arith,
}
use mathlib.Core.Path.{subst}
use plant_os.Mm.Heap.Chain.{Allocated, Block, past, joined, used_bytes, used_blocks}
use plant_os.Mm.Heap.FirstFit.{Allocated-ge}
use plant_os.Mm.Heap.Free.{join_free, freed, back, FreeAt}

-- The blocks `bs` without the allocation of `s` bytes at `c`, which is free.
pub record IsReleased (a : ℕ) (bs : List Block) (c s : ℕ) (bs' : List Block) : Type 0 where
  pub bytes : used_bytes bs ≡ used_bytes bs' + s
  pub blocks : used_blocks bs ≡ suc (used_blocks bs')
  pub keeps : (c' s' : ℕ) → Allocated a bs c' s' → c' ≢ c → Allocated a bs' c' s'

FreeAt-ge : (a : ℕ) (bs : List Block) (c : ℕ) → FreeAt a bs c → a ≤ c
FreeAt-ge a [] c x = elim x [ ]
FreeAt-ge a (b ∷ bs) c (inl x) = omega (arith, x.0)
FreeAt-ge a (b ∷ bs) c (inr x) = omega (arith, FreeAt-ge (past a b) bs c x)

-- Two free blocks made into one hold no allocation.
joined-keeps :
    (a : ℕ) (b b' : Block) (bs : List Block)
    → b.free ≡ true
    → b'.free ≡ true
    → (c s : ℕ) → Allocated a (b ∷ b' ∷ bs) c s
    → Allocated a (joined b b' ∷ bs) c s
joined-keeps a b b' bs f f' c s (inl x) = absurd (ground (arith, x.1, f))
joined-keeps a b b' bs f f' c s (inr (inl x)) = absurd (ground (arith, x.1, f'))
joined-keeps a b b' bs f f' c s (inr (inr x)) =
    let same_end : past (past a b) b' ≡ past a (joined b b') = omega arith in
    inr (subst (λ e. Allocated e bs c s) same_end x)

join_free_lem :
    (a : ℕ) (b : Block) (bs : List Block)
    → b.free ≡ true
    → (used_bytes (join_free b bs) ≡ used_bytes bs)
      × (used_blocks (join_free b bs) ≡ used_blocks bs)
      × ((c s : ℕ) → Allocated (past a b) bs c s → Allocated a (join_free b bs) c s)
      × FreeAt a (join_free b bs) a
join_free_lem a b [] f = (rw f refl, rw f refl, (λ c s x. elim x [ ]), inl (refl, f))
join_free_lem a b (b' ∷ bs) f = elim (Bool-cases b'.free) [
  | inl f' ↦
      let e : join_free b (b' ∷ bs) ≡ joined b b' ∷ bs = rw f' refl in
      (
        ap used_bytes e ∙ ground (arith, f, f'),
        ap used_blocks e ∙ ground (arith, f, f'),
        (λ c s x. subst (λ l. Allocated a l c s) (sym e) (joined-keeps a b b' bs f f' c s (inr x))),
        subst (λ l. FreeAt a l a) (sym e) (inl (refl, f)),
      )
  | inr f' ↦
      let e : join_free b (b' ∷ bs) ≡ b ∷ b' ∷ bs = rw f' refl in
      (
        ap used_bytes e ∙ ground (arith, f),
        ap used_blocks e ∙ ground (arith, f),
        (λ c s x. subst (λ l. Allocated a l c s) (sym e) (inr x)),
        subst (λ l. FreeAt a l a) (sym e) (inl (refl, f)),
      )
]

pub freed-IsReleased :
    (a : ℕ) (bs : List Block) (c s : ℕ)
    → Allocated a bs c s
    → IsReleased a bs c s (freed a c bs) × FreeAt a (freed a c bs) c
freed-IsReleased a [] c s x = elim x [ ]
freed-IsReleased a (b ∷ bs) c s x = elim (ℕ_discrete a c) [
  | yes at ↦ elim x [
    | inr y ↦ absurd (omega (arith, at, Allocated-ge (past a b) bs c s y))
    | inl y ↦
        let here : (a == c) ≡ true = ground (arith, at) in
        let (bytes, blocks, keeps, free) = join_free_lem a (record b { free = true }) bs refl in
        rw here (
          record {
            bytes = ground (arith, bytes, y.1, y.2);
            blocks = ground (arith, blocks, y.1);
            keeps = λ c' s' z ne. elim z [ inl w ↦ absurd (ne (w.0 ∙ at)) | inr w ↦ keeps c' s' w ];
          },
          subst (λ k. FreeAt a (join_free (record b { free = true }) bs) k) at free,
        )
  ]
  | no other ↦
      let later : Allocated (past a b) bs c s = elim x [
        | inl y ↦ absurd (other (sym y.0))
        | inr y ↦ y
      ] in
      let there : (a == c) ≡ false = ground (arith, other) in
      let (r, free) = freed-IsReleased (past a b) bs c s later in
      rw there (
        record {
          bytes = ground (arith, r.bytes);
          blocks = ground (arith, r.blocks);
          keeps = λ c' s' y ne. elim y [ inl z ↦ inl z | inr z ↦ inr (r.keeps c' s' z ne) ];
        },
        inr free,
      )
]

pub back-IsReleased :
    (a : ℕ) (b : Block) (bs : List Block) (c : ℕ)
    → FreeAt (past a b) bs c
    → (used_bytes (back a c (b ∷ bs)) ≡ used_bytes (b ∷ bs))
      × (used_blocks (back a c (b ∷ bs)) ≡ used_blocks (b ∷ bs))
      × ((c' s' : ℕ) → Allocated a (b ∷ bs) c' s' → Allocated a (back a c (b ∷ bs)) c' s')
back-IsReleased a b [] c x = elim x [ ]
back-IsReleased a b (b' ∷ bs) c x = elim (ℕ_discrete (past a b) c) [
  | yes at ↦ elim (Bool-cases b.free) [
    | inl f ↦
        let f' : b'.free ≡ true = elim x [
          | inl y ↦ y.1
          | inr y ↦ absurd (omega (arith, at, FreeAt-ge (past (past a b) b') bs c y))
        ] in
        let here : (past a b == c) ≡ true = ground (arith, at) in
        let e : back a c (b ∷ b' ∷ bs) ≡ joined b b' ∷ bs = rw (here, f) refl in
        (
          ap used_bytes e ∙ ground (arith, f, f'),
          ap used_blocks e ∙ ground (arith, f, f'),
          λ c' s' y. subst (λ l. Allocated a l c' s') (sym e) (joined-keeps a b b' bs f f' c' s' y),
        )
    | inr f ↦
        let here : (past a b == c) ≡ true = ground (arith, at) in
        let e : back a c (b ∷ b' ∷ bs) ≡ b ∷ b' ∷ bs = rw (here, f) refl in
        (ap used_bytes e, ap used_blocks e, λ c' s' y. subst (λ l. Allocated a l c' s') (sym e) y)
  ]
  | no other ↦
      let later : FreeAt (past (past a b) b') bs c = elim x [
        | inl y ↦ absurd (other (sym y.0))
        | inr y ↦ y
      ] in
      let there : (past a b == c) ≡ false = ground (arith, other) in
      let (bytes, blocks, keeps) = back-IsReleased (past a b) b' bs c later in
      rw there (
        ground (arith, bytes),
        ground (arith, blocks),
        λ c' s' y. elim y [ inl z ↦ inl z | inr z ↦ inr (keeps c' s' z) ],
      )
]
