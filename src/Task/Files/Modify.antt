-- ===== src/Task/Files/Modify.antt =====
-- One entry of a list changed in place.
use plant_os.Base.{ℕ, zero, suc, ◌<◌, ◌≡◌, ◌≢◌, refl, ap, List, [], ◌∷◌, length, get_or, set, arith}

module _ {A : Type 0} where
  pub modify : List A → ℕ → (A → A) → List A
  modify [] k f = []
  modify (x ∷ xs) zero f = f x ∷ xs
  modify (x ∷ xs) (suc k) f = x ∷ modify xs k f

  pub set-modify :
      (xs : List A) (k : ℕ) (f : A → A) (d : A) → set xs k (f (get_or xs k d)) ≡ modify xs k f
  unfolding modify
  set-modify [] k f d = refl
  set-modify (x ∷ xs) zero f d = refl
  set-modify (x ∷ xs) (suc k) f d = ap (λ l. x ∷ l) (set-modify xs k f d)

  pub length-modify : (xs : List A) (k : ℕ) (f : A → A) → length (modify xs k f) ≡ length xs
  unfolding modify
  length-modify [] k f = refl
  length-modify (x ∷ xs) zero f = refl
  length-modify (x ∷ xs) (suc k) f = ap suc (length-modify xs k f)

  pub modify-this :
      (xs : List A) (k : ℕ) (f : A → A) (d : A)
      → k < length xs
      → get_or (modify xs k f) k d ≡ f (get_or xs k d)
  unfolding modify
  modify-this [] k f d h = absurd (omega arith)
  modify-this (x ∷ xs) zero f d h = refl
  modify-this (x ∷ xs) (suc k) f d h = modify-this xs k f d (omega arith)

  pub modify-other :
      (xs : List A) (k j : ℕ) (f : A → A) (d : A)
      → j ≢ k
      → get_or (modify xs k f) j d ≡ get_or xs j d
  unfolding modify
  modify-other [] k j f d h = refl
  modify-other (x ∷ xs) zero zero f d h = absurd (h refl)
  modify-other (x ∷ xs) zero (suc j) f d h = refl
  modify-other (x ∷ xs) (suc k) zero f d h = refl
  modify-other (x ∷ xs) (suc k) (suc j) f d h = modify-other xs k j f d (λ e. h (ap suc e))

  -- Two changes in the other order, if they commute where they meet.
  pub modify-modify :
      (xs : List A) (k j : ℕ) (f g : A → A) (d : A)
      → (k ≡ j → g (f (get_or xs j d)) ≡ f (g (get_or xs j d)))
      → modify (modify xs k f) j g ≡ modify (modify xs j g) k f
  unfolding modify
  modify-modify [] k j f g d h = refl
  modify-modify (x ∷ xs) zero zero f g d h = ap (λ y. y ∷ xs) (h refl)
  modify-modify (x ∷ xs) zero (suc j) f g d h = refl
  modify-modify (x ∷ xs) (suc k) zero f g d h = refl
  modify-modify (x ∷ xs) (suc k) (suc j) f g d h =
      ap (λ l. x ∷ l) (modify-modify xs k j f g d (λ e. h (ap suc e)))

  -- A change and its undoing.
  pub modify-undo :
      (xs : List A) (k : ℕ) (f g : A → A) (d : A)
      → g (f (get_or xs k d)) ≡ get_or xs k d
      → modify (modify xs k f) k g ≡ xs
  unfolding modify
  modify-undo [] k f g d h = refl
  modify-undo (x ∷ xs) zero f g d h = ap (λ y. y ∷ xs) h
  modify-undo (x ∷ xs) (suc k) f g d h = ap (λ l. x ∷ l) (modify-undo xs k f g d h)
