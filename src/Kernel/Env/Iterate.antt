-- ===== src/Kernel/Env/Iterate.antt =====
-- The iteration by `env_count`, `env_key_at` and `env_val_at`.
use plant_os.Base.{
  ℕ, zero, suc, ◌<◌, ◌≤◌, ◌≡◌, refl, inl, inr, true, none, some, List, [], ◌∷◌, length, Bool-cases,
  arith,
}
use plant_os.Kernel.Env.{EnvEntry, slot, env_get, env_count, env_at, env_key_at, env_val_at}
use plant_os.Kernel.Env.Lookup.{IsUnique, env_get-HasKey}

-- The variable with the number `index`.
record IsNumbered (t : List EnvEntry) (index : ℕ) (j : ℕ) : Type 0 where
  in_range : j < length t
  used : (slot t j).used ≡ true
  found : env_at t index ≡ some (slot t j)

env_at-IsNumbered :
    (t : List EnvEntry) (index : ℕ) → index < env_count t → (j : ℕ) × IsNumbered t index j
unfolding env_count env_at
env_at-IsNumbered [] index h = absurd (omega arith)
env_at-IsNumbered (e ∷ es) zero h = elim (Bool-cases e.used) [
  | inl u ↦ (0, record { in_range = omega arith; used = u; found = rw u refl })
  | inr u ↦
      let (j, a) = env_at-IsNumbered es zero (ground (arith, u)) in
      (suc j, record { in_range = omega (arith, a.in_range); used = a.used; found = rw u a.found })
]
env_at-IsNumbered (e ∷ es) (suc index) h = elim (Bool-cases e.used) [
  | inl u ↦
      let (j, a) = env_at-IsNumbered es index (ground (arith, u)) in
      (suc j, record { in_range = omega (arith, a.in_range); used = a.used; found = rw u a.found })
  | inr u ↦
      let (j, a) = env_at-IsNumbered es (suc index) (ground (arith, u)) in
      (suc j, record { in_range = omega (arith, a.in_range); used = a.used; found = rw u a.found })
]

env_at-none : (t : List EnvEntry) (index : ℕ) → env_count t ≤ index → env_at t index ≡ none
unfolding env_count env_at
env_at-none [] index h = refl
env_at-none (e ∷ es) zero h = elim (Bool-cases e.used) [
  | inl u ↦ absurd (ground (arith, u))
  | inr u ↦ rw u (env_at-none es zero (ground (arith, u)))
]
env_at-none (e ∷ es) (suc index) h = elim (Bool-cases e.used) [
  | inl u ↦ rw u (env_at-none es index (ground (arith, u)))
  | inr u ↦ rw u (env_at-none es (suc index) (ground (arith, u)))
]

-- On a table without double keys, the numbers below `env_count` are those of variables, with the
-- values that `env_get` returns for their keys, and every other number is answered by NULL.
pub env_at_lem :
    (t : List EnvEntry) (index : ℕ)
    → IsUnique t
    → (index < env_count t
        → (key : List ℕ) × (value : List ℕ) × (env_key_at t index ≡ some key)
          × (env_val_at t index ≡ some value)
          × (env_get t key ≡ some value))
      × (env_count t ≤ index → (env_key_at t index ≡ none) × (env_val_at t index ≡ none))
unfolding env_key_at env_val_at
env_at_lem t index u = (
  λ h.
      let (j, a) = env_at-IsNumbered t index h in
      (
        (slot t j).key,
        (slot t j).value,
        rw (a.found, env_key_at) refl,
        rw (a.found, env_val_at) refl,
        env_get-HasKey t (slot t j).key j u (a.in_range, a.used, refl),
      ),
  λ h. let e = env_at-none t index h in (rw (e, env_key_at) refl, rw (e, env_val_at) refl),
)
