-- ===== src/Base/Tables.antt =====
-- The linear searches that the kernel makes through its fixed tables.
use Prim.Native.Nat.{ℕ, zero, suc, ◌<◌}
use mathlib.Core.Path.{◌≡◌, refl}
use mathlib.Core.Logic.{◌⊎◌, inl, inr}
use mathlib.Core.Bool.{Bool, true, false}
use mathlib.Core.List.{List, [], ◌∷◌}
use mathlib.Core.Option.{Option, none, some}
use native.Mathlib.Omega.{arith}
use plant_os.Base.Tests.{if◌then◌else◌, Bool-cases}
use plant_os.Base.Lists.{length, get_or}

abbrev next {ℓ} : {A : Type ℓ} → (A → Bool) → A → Option ℕ → Option ℕ
next p x none = if p x then some 0 else none
next p x (some i) = if p x then some 0 else some (suc i)

-- `for (i = 0; i < N; i++) if (p(a[i])) return i;`
unfoldable pub find_index {ℓ} : {A : Type ℓ} → (A → Bool) → List A → Option ℕ
find_index p [] = none
find_index p (x ∷ xs) = next p x (find_index p xs)

module _ {ℓ} {A : Type ℓ} (p : A → Bool) (d : A) where
  -- The index is in range, passes the test, and is the first to do so.
  pub record IsFirst (xs : List A) (i : ℕ) : Type 0 where
    pub in_range : i < length xs
    pub passes : p (get_or xs i d) ≡ true
    pub earlier : (j : ℕ) → j < i → p (get_or xs j d) ≡ false

  abbrev pub NoneOf : List A → Type 0
  NoneOf xs = (j : ℕ) → j < length xs → p (get_or xs j d) ≡ false

  abbrev pub Found : List A → Option ℕ → Type 0
  Found xs none = NoneOf xs
  Found xs (some i) = IsFirst xs i

  NoneOf-cons : (x : A) (xs : List A) → p x ≡ false → NoneOf xs → NoneOf (x ∷ xs)
  NoneOf-cons x xs e h zero lt = e
  NoneOf-cons x xs e h (suc j) lt = h j (omega arith)

  IsFirst-cons :
      (x : A) (xs : List A) (i : ℕ) → p x ≡ false → IsFirst xs i → IsFirst (x ∷ xs) (suc i)
  IsFirst-cons x xs i e f = record {
    in_range = omega (arith, f.in_range);
    passes = f.passes;
    earlier = earlier;
  }
    where
      earlier : (j : ℕ) → j < suc i → p (get_or (x ∷ xs) j d) ≡ false
      earlier zero lt = e
      earlier (suc j) lt = f.earlier j (omega arith)

  IsFirst-head : (x : A) (xs : List A) → p x ≡ true → IsFirst (x ∷ xs) 0
  IsFirst-head x xs e = record { in_range = omega arith; passes = e; earlier = λ j lt. elim lt [ ] }

  next-Found : (x : A) (xs : List A) (o : Option ℕ) → Found xs o → Found (x ∷ xs) (next p x o)
  next-Found x xs none f = elim (Bool-cases (p x)) [
    | inl e ↦ rw e (IsFirst-head x xs e)
    | inr e ↦ rw e (NoneOf-cons x xs e f)
  ]
  next-Found x xs (some i) f = elim (Bool-cases (p x)) [
    | inl e ↦ rw e (IsFirst-head x xs e)
    | inr e ↦ rw e (IsFirst-cons x xs i e f)
  ]

  -- What the search returns, on both outcomes.
  pub find_index-Found : (xs : List A) → Found xs (find_index p xs)
  unfolding find_index
  find_index-Found [] = λ j lt. elim lt [ ]
  find_index-Found (x ∷ xs) = next-Found x xs (find_index p xs) (find_index-Found xs)

  pub find_index-IsFirst : (xs : List A) {i : ℕ} → find_index p xs ≡ some i → IsFirst xs i
  find_index-IsFirst xs e = rw e at (find_index-Found xs)

  pub find_index-NoneOf : (xs : List A) → find_index p xs ≡ none → NoneOf xs
  find_index-NoneOf xs e = rw e at (find_index-Found xs)

  -- A search by cases, with what each case says.
  pub find_index-cases :
      (xs : List A)
      → ((find_index p xs ≡ none) × NoneOf xs)
        ⊎ ((i : ℕ) × (find_index p xs ≡ some i) × IsFirst xs i)
  find_index-cases xs = go (find_index p xs) refl
    where
      go :
          (o : Option ℕ)
          → find_index p xs ≡ o
          → ((find_index p xs ≡ none) × NoneOf xs)
            ⊎ ((i : ℕ) × (find_index p xs ≡ some i) × IsFirst xs i)
      go none e = inl (e, find_index-NoneOf xs e)
      go (some i) e = inr (i, e, find_index-IsFirst xs e)
