-- ===== src/Kernel/Env/Lookup.antt =====
-- What `env_get` finds in a table in which no two variables have the same key.
use plant_os.Base.{
  ℕ, ◌<◌, ◌≡◌, refl, ap, ◌⊎◌, inl, inr, true, none, some, List, [], ◌∷◌, length, find_index,
  find_index-cases, arith,
}
use plant_os.Kernel.Env.{str_eq, EnvEntry, blank, slot, names, env_get}

pub str_eq-eq : (a b : List ℕ) → str_eq a b ≡ true → a ≡ b
unfolding str_eq
str_eq-eq [] [] h = refl
str_eq-eq [] (y ∷ ys) h = ground arith
str_eq-eq (x ∷ xs) [] h = ground arith
str_eq-eq (x ∷ xs) (y ∷ ys) h = ground (arith, str_eq-eq xs ys)

pub str_eq_self : (a : List ℕ) → str_eq a a ≡ true
unfolding str_eq
str_eq_self [] = refl
str_eq_self (x ∷ xs) = ground (arith, str_eq_self xs)

-- Slot `i` holds the variable `key`.
abbrev pub HasKey : List EnvEntry → List ℕ → ℕ → Type 0
HasKey table key i = (i < length table) × ((slot table i).used ≡ true) × ((slot table i).key ≡ key)

abbrev pub IsUnique : List EnvEntry → Type 0
IsUnique table = (key : List ℕ) (i j : ℕ) → HasKey table key i → HasKey table key j → i ≡ j

pub names-HasKey :
    (table : List EnvEntry) (key : List ℕ) (i : ℕ)
    → i < length table
    → names key (slot table i) ≡ true
    → HasKey table key i
names-HasKey table key i lt h = ground (arith, str_eq-eq (slot table i).key key)

pub HasKey-names :
    (table : List EnvEntry) (key : List ℕ) (i : ℕ)
    → HasKey table key i
    → names key (slot table i) ≡ true
HasKey-names table key i (lt, u, e) = rw (u, e) (str_eq_self key)

-- The search for a key by cases.
pub names-cases :
    (table : List EnvEntry) (key : List ℕ)
    → ((find_index (names key) table ≡ none) × ((j : ℕ) → ¬ HasKey table key j))
      ⊎ ((i : ℕ) × (find_index (names key) table ≡ some i) × HasKey table key i)
names-cases table key = elim (find_index-cases (names key) blank table) [
  | inl (e, n) ↦ inl (e, λ j a. cc (n j a.0, HasKey-names table key j a))
  | inr (i, e, f) ↦ inr (i, e, names-HasKey table key i f.in_range f.passes)
]

pub env_get-HasKey :
    (table : List EnvEntry) (key : List ℕ) (i : ℕ)
    → IsUnique table
    → HasKey table key i
    → env_get table key ≡ some (slot table i).value
unfolding env_get
env_get-HasKey table key i u a = elim (names-cases table key) [
  | inl (e, n) ↦ absurd (n i a)
  | inr (j, e, b) ↦ rw (e, env_get) (ap (λ k. some (slot table k).value) (u key j i b a))
]

pub env_get-none :
    (table : List EnvEntry) (key : List ℕ)
    → ((j : ℕ) → ¬ HasKey table key j)
    → env_get table key ≡ none
unfolding env_get
env_get-none table key n = elim (names-cases table key) [
  | inl (e, _) ↦ rw (e, env_get) refl
  | inr (j, e, b) ↦ absurd (n j b)
]
