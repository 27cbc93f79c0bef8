-- ===== src/Mm/Vma/Remove.antt =====
-- `vma_remove`: which areas are left.
use plant_os.Base.{
  ℕ, zero, suc, ◌<◌, ◌≤◌, ◌≡◌, refl, ap, ◌↔◌, List, [], ◌∷◌, length, get_or, map, arith,
}
use plant_os.Mm.Vma.{Vma, blank, area, remove_inside, vma_remove}
use plant_os.Mm.Vma.Areas.{IsLive, IsDisjoint}

module _ {ℓ} {A : Type ℓ} (f : A → A) where
  length-map : (xs : List A) → length (map f xs) ≡ length xs
  length-map [] = refl
  length-map (x ∷ xs) = ap suc (length-map xs)

  get_or-map : (xs : List A) (i : ℕ) (d : A) → f d ≡ d → get_or (map f xs) i d ≡ f (get_or xs i d)
  get_or-map [] i d e = rw e refl
  get_or-map (x ∷ xs) zero d e = refl
  get_or-map (x ∷ xs) (suc i) d e = get_or-map xs i d e

pub area-remove :
    (vmas : List Vma) (start end i : ℕ)
    → area (vma_remove vmas start end) i ≡ remove_inside start end (area vmas i)
unfolding vma_remove remove_inside blank
area-remove vmas start end i = get_or-map (remove_inside start end) vmas i blank refl

module _ (vmas : List Vma) (start end : ℕ) where
  left :
      (i : ℕ)
      → IsLive (vma_remove vmas start end) i
      → IsLive vmas i × (area (vma_remove vmas start end) i ≡ area vmas i)
  unfolding vma_remove remove_inside
  left i (l, u) =
      ground (arith, area-remove vmas start end i, length-map (remove_inside start end) vmas)

  kept :
      (i : ℕ)
      → IsLive vmas i
      → (start ≤ (area vmas i).start → end < (area vmas i).end)
      → IsLive (vma_remove vmas start end) i
  unfolding vma_remove remove_inside
  kept i (l, u) out =
      ground (arith, area-remove vmas start end i, length-map (remove_inside start end) vmas)

  inside_gone :
      (i : ℕ)
      → IsLive (vma_remove vmas start end) i
      → start ≤ (area vmas i).start
      → end < (area vmas i).end
  unfolding vma_remove remove_inside
  inside_gone i (l, u) le = ground (arith, area-remove vmas start end i)

-- The areas in use after `vma_remove` are those that do not lie within the range, unchanged, and if
-- the areas were apart, they are.
pub vma_remove_lem :
    (vmas : List Vma) (start end : ℕ)
    → IsDisjoint vmas
    → IsDisjoint (vma_remove vmas start end)
      × ((i : ℕ)
          → IsLive (vma_remove vmas start end) i
            ↔ (IsLive vmas i × (start ≤ (area vmas i).start → end < (area vmas i).end)))
      × ((i : ℕ)
          → IsLive (vma_remove vmas start end) i
          → area (vma_remove vmas start end) i ≡ area vmas i)
vma_remove_lem vmas start end d = (
  λ i j li lj ne.
      let (a, e) = left vmas start end i li in
      let (b, e') = left vmas start end j lj in rw (e, e') (d i j a b ne),
  λ i. (
    λ l. ((left vmas start end i l).0, inside_gone vmas start end i l),
    λ x. kept vmas start end i x.0 x.1,
  ),
  λ i l. (left vmas start end i l).1,
)
