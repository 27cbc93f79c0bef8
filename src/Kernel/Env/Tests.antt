-- ===== src/Kernel/Env/Tests.antt =====
-- Runs on a table of two variables and a free slot.
use plant_os.Base.{ℕ, zero, suc, ◌<◌, ◌≤◌, ◌≡◌, refl, true, none, some, List, [], ◌∷◌, arith}
use plant_os.Kernel.Env.{EnvEntry, blank, env_get, env_count, env_key_at, env_val_at, env_at}
use plant_os.Kernel.Env.Lookup.{IsUnique}
use plant_os.Kernel.Env.Iterate.{env_at_lem}

abbrev home : List ℕ
home = 72 ∷ 79 ∷ []

abbrev path : List ℕ
path = 80 ∷ []

abbrev two : List EnvEntry
two =
    record { key = home; value = 47 ∷ []; used = true }
    ∷ blank
    ∷ record { key = path; value = 98 ∷ []; used = true }
    ∷ []

two-IsUnique : IsUnique two
two-IsUnique key zero zero a b = refl
two-IsUnique key (suc (suc zero)) (suc (suc zero)) a b = refl
two-IsUnique key zero (suc (suc zero)) a b = absurd (cc (a.2, b.2))
two-IsUnique key (suc (suc zero)) zero a b = absurd (cc (a.2, b.2))
two-IsUnique key (suc zero) j a b = absurd (cc a.1)
two-IsUnique key i (suc zero) a b = absurd (cc b.1)
two-IsUnique key (suc (suc (suc i))) j a b = absurd (omega (arith, a.0))
two-IsUnique key i (suc (suc (suc j))) a b = absurd (omega (arith, b.0))

second : (env_val_at two 1 ≡ some (98 ∷ [])) × (env_key_at two 2 ≡ none) × (env_count two ≡ 2)
unfolding env_val_at env_key_at env_at env_count
second = (refl, refl, refl)

env_at_lem_example :
    (1 < env_count two
      → (key : List ℕ) × (value : List ℕ) × (env_key_at two 1 ≡ some key)
        × (env_val_at two 1 ≡ some value)
        × (env_get two key ≡ some value))
    × (env_count two ≤ 1 → (env_key_at two 1 ≡ none) × (env_val_at two 1 ≡ none))
env_at_lem_example = env_at_lem two 1 two-IsUnique
