-- ===== src/Kernel/Env.antt =====
-- kernel/env.c: the table of environment variables. A string is the list of its characters before
-- the NUL; the functions are called with strings, never NULL.
pub mod Lookup
pub mod Update
pub mod Set
pub mod Iterate
mod Tests
use plant_os.Base.{
  ℕ, zero, suc, ◌+◌, Bool, true, false, ◌&&◌, ◌||◌, not, Option, none, some, List, [], ◌∷◌, length,
  get_or, set, replicate, find_index, leb, ◌==◌, if◌then◌else◌,
}

-- `strcmp(a, b) == 0`
unfoldable pub str_eq : List ℕ → List ℕ → Bool
str_eq [] [] = true
str_eq [] (y ∷ ys) = false
str_eq (x ∷ xs) [] = false
str_eq (x ∷ xs) (y ∷ ys) = let rest = str_eq xs ys in if x == y then rest else false

-- `struct env_entry`
pub record EnvEntry : Type 0 where
  pub key : List ℕ
  pub value : List ℕ
  pub used : Bool

abbrev pub env_max_vars : ℕ
env_max_vars = 64

abbrev pub env_key_max : ℕ
env_key_max = 32

abbrev pub env_val_max : ℕ
env_val_max = 128

-- What `memset` to 0 makes of a slot.
abbrev pub blank : EnvEntry
blank = record { key = []; value = []; used = false }

abbrev pub slot : List EnvEntry → ℕ → EnvEntry
slot table i = get_or table i blank

-- `env_table[i].used && strcmp(env_table[i].key, key) == 0`
abbrev pub names : List ℕ → EnvEntry → Bool
names key e = e.used && str_eq e.key key

unfoldable pub env_get : List EnvEntry → List ℕ → Option (List ℕ)
env_get table key = elim (find_index (names key) table) [
  | some i ↦ some (slot table i).value
  | none ↦ none
]

-- The second half of `env_set`: a new slot.
unfoldable pub env_new : List EnvEntry → List ℕ → List ℕ → Option (List EnvEntry)
env_new table key value = elim (find_index (λ e. not e.used) table) [
  | some i ↦ some (set table i (record { key = key; value = value; used = true }))
  | none ↦ none
]

-- `none` is the result -1.
unfoldable pub env_set : List EnvEntry → List ℕ → List ℕ → Option (List EnvEntry)
env_set table key value =
    if leb env_key_max (length key) || leb env_val_max (length value)
    then none
    else (elim (find_index (names key) table) [
      | some i ↦ some (set table i (record (slot table i) { value = value }))
      | none ↦ env_new table key value
    ])

unfoldable pub env_unset : List EnvEntry → List ℕ → Option (List EnvEntry)
env_unset table key = elim (find_index (names key) table) [
  | some i ↦ some (set table i (record (slot table i) { used = false }))
  | none ↦ none
]

unfoldable pub env_count : List EnvEntry → ℕ
env_count [] = 0
env_count (e ∷ es) = let n = env_count es in if e.used then n + 1 else n

-- The slot of the variable with the number `index`: the loop of `env_key_at` and `env_val_at`,
-- which count down from `index` here where the code counts `n` up to it.
unfoldable pub env_at : List EnvEntry → ℕ → Option EnvEntry
env_at [] index = none
env_at (e ∷ es) zero = let rest = env_at es zero in if e.used then some e else rest
env_at (e ∷ es) (suc index) =
    let next = env_at es index in let same = env_at es (suc index) in if e.used then next else same

unfoldable pub env_key_at : List EnvEntry → ℕ → Option (List ℕ)
env_key_at table index = elim (env_at table index) [ some e ↦ some e.key | none ↦ none ]

unfoldable pub env_val_at : List EnvEntry → ℕ → Option (List ℕ)
env_val_at table index = elim (env_at table index) [ some e ↦ some e.value | none ↦ none ]
