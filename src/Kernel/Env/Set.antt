-- ===== src/Kernel/Env/Set.antt =====
-- The results of `env_set` and `env_unset`, errors included.
use plant_os.Base.{
  ℕ, ◌<◌, ◌≤◌, ◌≡◌, ◌≢◌, refl, sym, ap, ◌∙◌, ◌⊎◌, inl, inr, true, false, ◌||◌, not, Option, none,
  some, List, length, set, find_index-cases, leb, if◌then◌else◌, Bool-cases, arith,
}
use plant_os.Kernel.Env.{
  str_eq, EnvEntry, blank, slot, env_key_max, env_val_max, env_get, env_new, env_set, env_unset,
}
use plant_os.Kernel.Env.Lookup.{str_eq-eq, str_eq_self, HasKey, IsUnique, names-cases, env_get-none}
use plant_os.Kernel.Env.Update.{HasSet, put-HasSet, other-get, set-HasKey}

-- The variable is set, or a string is too long, or there is no room for a new variable.
pub data IsEnvSet (t : List EnvEntry) (key value : List ℕ) : Option (List EnvEntry) → Type 0 where
  done :
      {t' : List EnvEntry}
      → length key < env_key_max
      → length value < env_val_max
      → HasSet t key value t'
      → IsEnvSet t key value (some t')
  too_long : (env_key_max ≤ length key) ⊎ (env_val_max ≤ length value) → IsEnvSet t key value none
  full :
      ((j : ℕ) → ¬ HasKey t key j)
      → ((j : ℕ) → j < length t → (slot t j).used ≡ true)
      → IsEnvSet t key value none

new-IsEnvSet :
    (t : List EnvEntry) (key value : List ℕ)
    → IsUnique t
    → length key < env_key_max
    → length value < env_val_max
    → ((j : ℕ) → ¬ HasKey t key j)
    → IsEnvSet t key value (env_new t key value)
unfolding env_new
new-IsEnvSet t key value u k v absent = elim (find_index-cases (λ e. not e.used) blank t) [
  | inl (e, all) ↦ rw (e, env_new) (full absent (λ j lt. ground (arith, all j lt)))
  | inr (i, e, f) ↦
      rw (e, env_new)
        (done k v (
          put-HasSet t i (record { key = key; value = value; used = true }) u
            (record {
              in_range = f.in_range;
              no_other = λ j a. absurd (absent j a);
              own = λ key' a. absurd (ground (arith, f.passes, a.1));
            })
            refl))
]

HasSet-key :
    {t t' : List EnvEntry} {key key' value : List ℕ}
    → key ≡ key'
    → HasSet t key value t'
    → HasSet t key' value t'
HasSet-key e s = rw e at s

old-HasSet :
    (t : List EnvEntry) (key value : List ℕ) (i : ℕ)
    → IsUnique t
    → HasKey t key i
    → HasSet t key value (set t i (record (slot t i) { value = value }))
old-HasSet t key value i u a = HasSet-key a.2 (
    put-HasSet t i (record (slot t i) { value = value }) u
      (record { in_range = a.0; no_other = λ j b. u key i j a (rw a.2 at b); own = λ key' b. b.2 })
      a.1)

-- `env_set` on a table without double keys sets the variable and no other, or returns -1 because a
-- string is too long, or because the key is new and every slot is used.
pub env_set-IsEnvSet :
    (t : List EnvEntry) (key value : List ℕ)
    → IsUnique t
    → IsEnvSet t key value (env_set t key value)
unfolding env_set
env_set-IsEnvSet t key value u =
    elim (Bool-cases (leb env_key_max (length key) || leb env_val_max (length value))) [
      | inl long ↦ rw long (too_long (ground arith))
      | inr fits ↦
          let k : length key < env_key_max = ground arith in
          let v : length value < env_val_max = ground arith in
          elim (names-cases t key) [
            | inl (e, absent) ↦ rw (fits, e, env_set) (new-IsEnvSet t key value u k v absent)
            | inr (i, e, a) ↦ rw (fits, e, env_set) (done k v (old-HasSet t key value i u a))
          ]
    ]

-- The variable is gone and the others have their values, or there was none.
pub data IsEnvUnset (t : List EnvEntry) (key : List ℕ) : Option (List EnvEntry) → Type 0 where
  gone :
      {t' : List EnvEntry}
      → IsUnique t'
      → ((key' : List ℕ) → env_get t' key' ≡ (if str_eq key key' then none else env_get t key'))
      → IsEnvUnset t key (some t')
  absent : env_get t key ≡ none → IsEnvUnset t key none

module _ (t : List EnvEntry) (key : List ℕ) (i : ℕ) (u : IsUnique t) (a : HasKey t key i) where
  abbrev cleared : EnvEntry
  cleared = record (slot t i) { used = false }

  left-HasKey :
      (key' : List ℕ) (j : ℕ) → HasKey (set t i cleared) key' j → (i ≢ j) × HasKey t key' j
  left-HasKey key' j b = elim (set-HasKey t i cleared a.0 key' j b) [
    | inl (_, used, _) ↦ absurd (ground (arith, used))
    | inr x ↦ x
  ]

  cleared-IsUnique : IsUnique (set t i cleared)
  cleared-IsUnique key' j k b c = u key' j k (left-HasKey key' j b).1 (left-HasKey key' k c).1

  cleared-gone : IsEnvUnset t key (some (set t i cleared))
  cleared-gone = gone cleared-IsUnique (λ key'. elim (Bool-cases (str_eq key key')) [
    | inl same ↦
        let eq = str_eq-eq key key' same in
        rw same (
          env_get-none _ key'
            (λ j b. let (ne, c) = left-HasKey key' j b in ne (u key i j a (rw eq c))))
    | inr other ↦
        let ne : key ≢ key' = λ eq. cc (str_eq_self key, ap (str_eq key) eq, other) in
        rw other (
          other-get t i cleared u a.0 cleared-IsUnique key' (λ used. absurd (ground (arith, used)))
            (λ b. ne (sym a.2 ∙ b.2)))
  ])

-- `env_unset` on a table without double keys removes the variable and no other, or returns -1 because
-- it is not set.
pub env_unset-IsEnvUnset :
    (t : List EnvEntry) (key : List ℕ) → IsUnique t → IsEnvUnset t key (env_unset t key)
unfolding env_unset
env_unset-IsEnvUnset t key u = elim (names-cases t key) [
  | inl (e, n) ↦ rw (e, env_unset) (absent (env_get-none t key n))
  | inr (i, e, a) ↦ rw (e, env_unset) (cleared-gone t key i u a)
]
