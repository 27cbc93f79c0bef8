-- ===== src/Mm/Heap/FirstFit.antt =====
-- The allocation that first fit adds to the list of the blocks.
use plant_os.Base.{
  ℕ, ◌+◌, ◌-◌, ◌≤◌, ◌≡◌, ◌≢◌, refl, sym, ap, inl, inr, true, ◌&&◌, Option, none, some, List, [],
  ◌∷◌, leb, Bool-cases, arith,
}
use mathlib.Core.Path.{subst}
use mathlib.Core.Option.{none-ne-some, some-injective}
use plant_os.Mm.Heap.{header_size}
use plant_os.Mm.Heap.Chain.{Allocated, Block, past}
use plant_os.Mm.Heap.Alloc.{carve, behind, first_fit}

pub Allocated-ge : (a : ℕ) (bs : List Block) (c s : ℕ) → Allocated a bs c s → a ≤ c
Allocated-ge a [] c s x = elim x [ ]
Allocated-ge a (b ∷ bs) c s (inl x) = omega (arith, x.0)
Allocated-ge a (b ∷ bs) c s (inr x) = omega (arith, Allocated-ge (past a b) bs c s x)

-- A new allocation of at least `n` bytes beside those of `bs`.
pub record IsNew (a : ℕ) (bs : List Block) (n : ℕ) (bs' : List Block) (c s : ℕ) : Type 0 where
  pub enough : n ≤ s
  pub new : Allocated a bs' c s
  pub keeps : (c' s' : ℕ) → Allocated a bs c' s' → Allocated a bs' c' s'
  pub fresh : (c' s' : ℕ) → Allocated a bs c' s' → c' ≢ c

carve-IsNew :
    (a : ℕ) (b : Block) (bs : List Block) (n : ℕ)
    → b.free ≡ true
    → n ≤ b.size
    → (s : ℕ) × IsNew a (b ∷ bs) n (carve b n bs) a s
carve-IsNew a b bs n free le = elim (Bool-cases (leb (n + header_size + 16) b.size)) [
  | inl room ↦
      let enough : n + header_size + 16 ≤ b.size = ground arith in
      let same_end : past a b ≡ a + header_size + n + header_size + (b.size - n - header_size) =
        omega arith in
      rw room (
        n,
        record {
          enough = omega arith;
          new = inl (refl, refl, refl);
          keeps = λ c' s' x. inr (inr (subst (λ e. Allocated e bs c' s') same_end (tail c' s' x)));
          fresh = λ c' s' x e.
              absurd (omega (arith, e, Allocated-ge (past a b) bs c' s' (tail c' s' x)));
        },
      )
  | inr small ↦ rw small (
    b.size,
    record {
      enough = le;
      new = inl (refl, refl, refl);
      keeps = λ c' s' x. inr (tail c' s' x);
      fresh =
          λ c' s' x e. absurd (omega (arith, e, Allocated-ge (past a b) bs c' s' (tail c' s' x)));
    },
  )
]
  where
    tail : (c' s' : ℕ) → Allocated a (b ∷ bs) c' s' → Allocated (past a b) bs c' s'
    tail c' s' (inl x) = absurd (ground (arith, x.1, free))
    tail c' s' (inr x) = x

behind-some :
    (b : Block) (o : Option (ℕ × List Block)) (p : ℕ) (bs' : List Block)
    → behind b o ≡ some (p, bs')
    → (bs'' : List Block) × (o ≡ some (p, bs'')) × (bs' ≡ b ∷ bs'')
behind-some b none p bs' e = absurd (none-ne-some _ e)
behind-some b (some (q, bs'')) p bs' e =
    let e' = some-injective (q, b ∷ bs'') (p, bs') e in
    (bs'', ap (λ k. some (k, bs'')) (ap (λ x. x.0) e'), sym (ap (λ x. x.1) e'))

pub first_fit-IsNew :
    (a : ℕ) (bs : List Block) (n c : ℕ) (bs' : List Block)
    → first_fit a bs n ≡ some (c + header_size, bs')
    → (s : ℕ) × IsNew a bs n bs' c s
first_fit-IsNew a [] n c bs' e = absurd (none-ne-some _ e)
first_fit-IsNew a (b ∷ bs) n c bs' e = elim (Bool-cases (b.free && leb n b.size)) [
  | inl fits ↦
      let e' =
        some-injective (a + header_size, carve b n bs) (c + header_size, bs') (rw fits at e) in
      let at : a ≡ c = omega (arith, ap (λ x. x.0) e') in
      let (s, new) = carve-IsNew a b bs n (ground arith) (ground arith) in
      (
        s,
        subst (λ k. IsNew a (b ∷ bs) n bs' k s) at
            (subst (λ l. IsNew a (b ∷ bs) n l a s) (ap (λ x. x.1) e') new),
      )
  | inr skip ↦
      let (bs'', e', shape) =
        behind-some b (first_fit (past a b) bs n) (c + header_size) bs' (rw skip at e) in
      let (s, new) = first_fit-IsNew (past a b) bs n c bs'' e' in
      (
        s,
        subst (λ l. IsNew a (b ∷ bs) n l c s) (sym shape)
            (record {
              enough = new.enough;
              new = inr new.new;
              keeps = λ c' s' x. elim x [ inl y ↦ inl y | inr y ↦ inr (new.keeps c' s' y) ];
              fresh = λ c' s' x. elim x [
                | inl y ↦ λ same.
                    absurd (omega (arith, y.0, same, Allocated-ge (past a b) bs'' c s new.new))
                | inr y ↦ new.fresh c' s' y
              ];
            }),
      )
]
