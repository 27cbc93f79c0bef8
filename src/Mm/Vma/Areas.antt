-- ===== src/Mm/Vma/Areas.antt =====
-- The areas of a task stay apart: `vma_add`, `vma_remove`, and SYS_MMAP without and with a hint.
use plant_os.Base.{
  ℕ, ◌<◌, ◌≤◌, ◌≡◌, ◌≢◌, ap, ◌⊎◌, inl, inr, true, not, Option, none, some, List, length, length-set,
  get_or-set, set, find_index-cases, find_index-IsFirst, ◌==◌, if◌then◌else◌, Bool-cases, arith,
}
use plant_os.Mm.Vma.{Vma, blank, area, holds, vma_alloc, vma_find, vma_add}

-- Slot `i` is in the array and in use.
abbrev pub IsLive : List Vma → ℕ → Type 0
IsLive vmas i = (i < length vmas) × ((area vmas i).used ≡ true)

-- No two areas in use meet.
abbrev pub IsDisjoint : List Vma → Type 0
IsDisjoint vmas =
    (i j : ℕ)
    → IsLive vmas i
    → IsLive vmas j
    → i ≢ j
    → ((area vmas i).end ≤ (area vmas j).start) ⊎ ((area vmas j).end ≤ (area vmas i).start)

abbrev pub Clear : List Vma → ℕ → ℕ → Type 0
Clear vmas a b =
    (i : ℕ)
    → i < length vmas
    → (area vmas i).used ≡ true
    → (b ≤ (area vmas i).start) ⊎ ((area vmas i).end ≤ a)

module _ (vmas : List Vma) (k : ℕ) (v : Vma) (lt : k < length vmas) where
  area-set : (j : ℕ) → area (set vmas k v) j ≡ (if k == j then v else area vmas j)
  area-set j = get_or-set vmas k j v blank lt

  set-IsLive : (j : ℕ) → k ≢ j → IsLive (set vmas k v) j → IsLive vmas j
  set-IsLive j ne (l, u) = ground (arith, area-set j, length-set vmas k v)

  set-IsDisjoint : IsDisjoint vmas → Clear vmas v.start v.end → IsDisjoint (set vmas k v)
  set-IsDisjoint d c i j li lj ne = elim (Bool-cases (k == i)) [
    | inl e ↦ elim (Bool-cases (k == j)) [
      | inl e' ↦ absurd (ground (arith))
      | inr e' ↦ ground (arith, area-set i, area-set j, set-IsLive j (ground arith) lj, c j)
    ]
    | inr e ↦ elim (Bool-cases (k == j)) [
      | inl e' ↦ ground (arith, area-set i, area-set j, set-IsLive i (ground arith) li, c i)
      | inr e' ↦ ground (
        arith,
        area-set i,
        area-set j,
        d i j (set-IsLive i (ground arith) li) (set-IsLive j (ground arith) lj) ne,
      )
    ]
  ]

-- A range put over a slot that is not in use, and across the start of an area.
pub set-overlap :
    (vmas : List Vma) (k j : ℕ) (v : Vma)
    → vma_alloc vmas ≡ some k
    → IsLive vmas j
    → v.used ≡ true
    → v.start < (area vmas j).start
    → (area vmas j).start < v.end
    → (area vmas j).start < (area vmas j).end
    → ¬ IsDisjoint (set vmas k v)
unfolding vma_alloc
set-overlap vmas k j v slot (lj, uj) u inside reach nonempty d =
    let f = find_index-IsFirst (λ v. not v.used) blank vmas slot in
    let ne : k ≢ j = ground (arith, f.passes) in
    let ek = area-set vmas k v f.in_range k in
    let ej = area-set vmas k v f.in_range j in
    let len = length-set vmas k v in
    ground (arith, d k j (ground (arith, f.in_range), ground arith) (ground arith, ground arith) ne)

-- Every address of `[a, b)` is found in one area, which starts at `a`.
abbrev pub Covers : List Vma → ℕ → ℕ → Type 0
Covers vmas a b =
    (addr : ℕ)
    → a ≤ addr
    → addr < b
    → (k : ℕ) × (vma_find vmas addr ≡ some k) × ((area vmas k).start ≡ a)

disjoint-Covers :
    (vmas : List Vma) (k : ℕ)
    → IsDisjoint vmas
    → IsLive vmas k
    → Covers vmas (area vmas k).start (area vmas k).end
unfolding vma_find
disjoint-Covers vmas k d live addr le lt = elim (find_index-cases (holds addr) blank vmas) [
  | inl (e, none_of) ↦ absurd (ground (arith, none_of k live.0))
  | inr (i, e, f) ↦ (
    i,
    e,
    elim (Bool-cases (i == k)) [
      | inl same ↦ let e' : i ≡ k = ground arith in ap (λ n. (area vmas n).start) e'
      | inr other ↦ absurd (
          ground
            (arith, f.passes, d i k (f.in_range, ground (arith, f.passes)) live (ground arith)))
    ],
  )
]

-- The areas after a call of `vma_add` for a clear range, or the result -1 of a full array.
pub data IsAdded (vmas : List Vma) (a b : ℕ) : Option (List Vma) → Type 0 where
  added : {vmas' : List Vma} → IsDisjoint vmas' → Covers vmas' a b → IsAdded vmas a b (some vmas')
  no_slot : ((i : ℕ) → i < length vmas → (area vmas i).used ≡ true) → IsAdded vmas a b none

pub vma_add-IsAdded :
    (vmas : List Vma) (a b flags type : ℕ)
    → IsDisjoint vmas
    → Clear vmas a b
    → IsAdded vmas a b (vma_add vmas a b flags type)
unfolding vma_add vma_alloc
vma_add-IsAdded vmas a b flags type d c = elim (find_index-cases (λ v. not v.used) blank vmas) [
  | inl (e, none_of) ↦ rw (e, vma_add, vma_alloc) (no_slot (λ i lt. ground (arith, none_of i lt)))
  | inr (k, e, f) ↦
      let v : Vma = record {
        start = a;
        end = b;
        flags = flags;
        type = type;
        shm_id = none;
        used = true;
      } in
      let d' = set-IsDisjoint vmas k v f.in_range d c in
      let here : area (set vmas k v) k ≡ v = ground (arith, area-set vmas k v f.in_range k) in
      let live : IsLive (set vmas k v) k =
        (ground (arith, f.in_range, length-set vmas k v), ap (λ (w : Vma). w.used) here) in
      rw (e, vma_add, vma_alloc)
        (added d' (rw (here) at (disjoint-Covers (set vmas k v) k d' live)))
]
