-- ===== src/Kernel/Env/Update.antt =====
-- `env_set` and `env_unset` against `env_get`.
use plant_os.Base.{
  ℕ, ◌<◌, ◌≡◌, ◌≢◌, refl, sym, ap, ◌∙◌, ◌⊎◌, inl, inr, true, some, List, length, length-set,
  get_or-set, set, ◌==◌, if◌then◌else◌, Bool-cases, arith,
}
use plant_os.Kernel.Env.{str_eq, EnvEntry, blank, slot, env_get}
use plant_os.Kernel.Env.Lookup.{
  str_eq-eq, str_eq_self, HasKey, IsUnique, names-cases, env_get-HasKey, env_get-none,
}

module _ (t : List EnvEntry) (k : ℕ) (e : EnvEntry) (lt : k < length t) where
  slot-set : (j : ℕ) → slot (set t k e) j ≡ (if k == j then e else slot t j)
  slot-set j = get_or-set t k j e blank lt

  here-HasKey : e.used ≡ true → HasKey (set t k e) e.key k
  here-HasKey u =
      let s : slot (set t k e) k ≡ e = ground (arith, slot-set k) in
      (omega (arith, length-set t k e), rw s u, rw s refl)

  kept-HasKey : (key : List ℕ) (j : ℕ) → k ≢ j → HasKey t key j → HasKey (set t k e) key j
  kept-HasKey key j ne (l, u, same) =
      let s : slot (set t k e) j ≡ slot t j = ground (arith, slot-set j) in
      (omega (arith, length-set t k e), rw s u, rw s same)

  -- A variable of the new table is that of slot `k`, or one of the old table.
  pub set-HasKey :
      (key : List ℕ) (j : ℕ)
      → HasKey (set t k e) key j
      → ((k ≡ j) × (e.used ≡ true) × (e.key ≡ key)) ⊎ ((k ≢ j) × HasKey t key j)
  set-HasKey key j (l, u, same) = elim (Bool-cases (k == j)) [
    | inl here ↦
        let s : slot (set t k e) j ≡ e = ground (arith, slot-set j) in
        inl (ground arith, rw s at u, rw s at same)
    | inr other ↦
        let s : slot (set t k e) j ≡ slot t j = ground (arith, slot-set j) in
        inr (ground arith, (omega (arith, length-set t k e), rw s at u, rw s at same))
  ]

-- Slot `k` holds `key` or nothing, and no other slot holds `key`.
pub record IsHome (t : List EnvEntry) (key : List ℕ) (k : ℕ) : Type 0 where
  pub in_range : k < length t
  pub no_other : (j : ℕ) → HasKey t key j → k ≡ j
  pub own : (key' : List ℕ) → HasKey t key' k → key ≡ key'

-- The table after the variable `key` was set: it has the value, the others have theirs.
pub record HasSet (t : List EnvEntry) (key value : List ℕ) (t' : List EnvEntry) : Type 0 where
  pub unique : IsUnique t'
  pub gets :
      (key' : List ℕ) → env_get t' key' ≡ (if str_eq key key' then some value else env_get t key')

put-IsUnique :
    (t : List EnvEntry) (k : ℕ) (e : EnvEntry)
    → IsUnique t
    → IsHome t e.key k
    → IsUnique (set t k e)
put-IsUnique t k e u h key i j ai aj = elim (set-HasKey t k e h.in_range key i ai) [
  | inl (ki, _, ei) ↦ elim (set-HasKey t k e h.in_range key j aj) [
    | inl (kj, _, ej) ↦ sym ki ∙ kj
    | inr (nj, bj) ↦ absurd (nj (h.no_other j (rw ei bj)))
  ]
  | inr (ni, bi) ↦ elim (set-HasKey t k e h.in_range key j aj) [
    | inl (kj, _, ej) ↦ absurd (ni (h.no_other i (rw ej bi)))
    | inr (nj, bj) ↦ u key i j bi bj
  ]
]

pub other-get :
    (t : List EnvEntry) (k : ℕ) (e : EnvEntry)
    → IsUnique t
    → k < length t
    → IsUnique (set t k e)
    → (key : List ℕ) → ((e.used ≡ true) → e.key ≢ key)
    → ¬ HasKey t key k
    → env_get (set t k e) key ≡ env_get t key
other-get t k e u lt u' key ne not_here = elim (names-cases t key) [
  | inl (_, n) ↦
      let gone : (j : ℕ) → ¬ HasKey (set t k e) key j = λ j a. elim (set-HasKey t k e lt key j a) [
        | inl (_, used, same) ↦ ne used same
        | inr (_, b) ↦ n j b
      ] in
      env_get-none (set t k e) key gone ∙ sym (env_get-none t key n)
  | inr (j, _, a) ↦
      let away : k ≢ j = λ here. not_here (rw here a) in
      let s : slot (set t k e) j ≡ slot t j = ground (arith, slot-set t k e lt j) in
      env_get-HasKey (set t k e) key j u' (kept-HasKey t k e lt key j away a)
      ∙ ap (λ (x : EnvEntry). some x.value) s
      ∙ sym (env_get-HasKey t key j u a)
]

pub put-HasSet :
    (t : List EnvEntry) (k : ℕ) (e : EnvEntry)
    → IsUnique t
    → IsHome t e.key k
    → e.used ≡ true
    → HasSet t e.key e.value (set t k e)
put-HasSet t k e u h used =
    let u' = put-IsUnique t k e u h in
    let s : slot (set t k e) k ≡ e = ground (arith, slot-set t k e h.in_range k) in
    record {
      unique = u';
      gets = λ key'. elim (Bool-cases (str_eq e.key key')) [
        | inl same ↦
            let eq = str_eq-eq e.key key' same in
            rw same (
              ap (env_get (set t k e)) (sym eq)
              ∙ env_get-HasKey (set t k e) e.key k u' (here-HasKey t k e h.in_range used)
              ∙ ap (λ (x : EnvEntry). some x.value) s)
        | inr other ↦
            let ne : e.key ≢ key' = λ eq. cc (str_eq_self e.key, ap (str_eq e.key) eq, other) in
            rw other (other-get t k e u h.in_range u' key' (λ _. ne) (λ a. ne (h.own key' a)))
      ];
    }
