-- ===== src/Fs/Ramfs/Path.antt =====
-- Paths of fs/ramfs.c: the fuel of the walk, and walks through a path in two parts.
use plant_os.Base.{
  ℕ, zero, suc, ◌-◌, ◌<◌, ◌≤◌, ◌≡◌, refl, sym, ap, ◌∙◌, ◌⊎◌, inl, inr, false, Option, none, some,
  List, [], ◌∷◌, ◌++◌, length, length-append, ◌==◌, Bool-cases, Option-cases, arith,
}
use plant_os.Fs.Ramfs.{VfsInode, slash, vfs_name_max, skip_slashes, component, dir_find, walk_path}

-- Only slashes are left, or the path goes on with another character.
unfoldable pub Skipped : List ℕ → Type 0
Skipped p =
    (skip_slashes p ≡ [])
    ⊎ ((c : ℕ) × (q : List ℕ) × (skip_slashes p ≡ c ∷ q)
        × ((c == slash) ≡ false)
        × (length (c ∷ q) ≤ length p))

pub skip_slashes-Skipped : (p : List ℕ) → Skipped p
unfolding skip_slashes Skipped
skip_slashes-Skipped [] = inl refl
skip_slashes-Skipped (c ∷ p) = elim (Bool-cases (c == slash)) [
  | inl e ↦ elim (skip_slashes-Skipped p) [
    | inl h ↦ inl (rw (e, h) refl)
    | inr (b, q, h, ne, le) ↦ inr (b, q, rw (e, h) refl, ne, omega (arith, le))
  ]
  | inr e ↦ inr (c, p, rw e refl, e, omega arith)
]

pub component-short : (n : ℕ) (p : List ℕ) → length (component n p).1 ≤ length p
unfolding component
component-short zero p = omega arith
component-short (suc n) [] = omega arith
component-short (suc n) (c ∷ p) = elim (Bool-cases (c == slash)) [
  | inl e ↦ rw e (omega arith)
  | inr e ↦ rw e (omega (arith, component-short n p))
]

pub skip_slashes-nil : skip_slashes [] ≡ []
unfolding skip_slashes
skip_slashes-nil = refl

component-less :
    (n c : ℕ) (q : List ℕ)
    → (c == slash) ≡ false
    → length (component (suc n) (c ∷ q)).1 < length (c ∷ q)
unfolding component
component-less n c q e = rw e (omega (arith, component-short n q))

module _ (t : List VfsInode) where
  walk-nil : (n cur : ℕ) → walk_path t n cur [] ≡ some cur
  unfolding walk_path skip_slashes
  walk-nil zero cur = refl
  walk-nil (suc n) cur = refl

  pub walk-slashes : (n cur : ℕ) (p : List ℕ) → skip_slashes p ≡ [] → walk_path t n cur p ≡ some cur
  unfolding walk_path
  walk-slashes zero cur p e = refl
  walk-slashes (suc n) cur p e = rw (walk_path, e) refl

  module _ (n cur c : ℕ) (p q : List ℕ) (e : skip_slashes p ≡ c ∷ q) where
    pub walk-stops :
        dir_find t cur (component (vfs_name_max - 1) (c ∷ q)).0 ≡ none
        → walk_path t (suc n) cur p ≡ none
    unfolding walk_path
    walk-stops h = rw (walk_path, e, h) refl

    pub walk-round :
        {next : ℕ}
        → dir_find t cur (component (vfs_name_max - 1) (c ∷ q)).0 ≡ some next
        → walk_path t (suc n) cur p ≡ walk_path t n next (component (vfs_name_max - 1) (c ∷ q)).1
    unfolding walk_path
    walk-round h = rw (walk_path, e, h) refl

  -- The walk ends before a fuel of the length of the path does.
  pub walk_fuel :
      (n m cur : ℕ) (p : List ℕ)
      → length p ≤ n
      → length p ≤ m
      → walk_path t n cur p ≡ walk_path t m cur p
  unfolding walk_path Skipped
  walk_fuel zero m cur [] hn hm = sym (walk-nil m cur)
  walk_fuel zero m cur (c ∷ p) hn hm = absurd (omega arith)
  walk_fuel (suc n) zero cur [] hn hm = walk-nil (suc n) cur
  walk_fuel (suc n) zero cur (c ∷ p) hn hm = absurd (omega arith)
  walk_fuel (suc n) (suc m) cur p hn hm = elim (skip_slashes-Skipped p) [
    | inl e ↦ rw (walk_path, e) refl
    | inr (c, q, e, ne, le) ↦
        let less = component-less 58 c q ne in
        elim (Option-cases (dir_find t cur (component 59 (c ∷ q)).0)) [
          | inl h ↦ walk-stops n cur c p q e h ∙ sym (walk-stops m cur c p q e h)
          | inr (next, h) ↦
              walk-round n cur c p q e h
              ∙ walk_fuel n m next _ (omega arith) (omega arith)
              ∙ sym (walk-round m cur c p q e h)
        ]
  ]

skip_slashes-append :
    (p r : List ℕ) → skip_slashes p ≡ [] → skip_slashes (p ++ slash ∷ r) ≡ skip_slashes r
unfolding skip_slashes
skip_slashes-append [] r e = refl
skip_slashes-append (c ∷ p) r e = elim (Bool-cases (c == slash)) [
  | inl h ↦ rw h (skip_slashes-append p r (rw h at e))
  | inr h ↦ absurd (cc (rw h at e))
]

skip_slashes-append_cons :
    (p r : List ℕ) (c : ℕ) (q : List ℕ)
    → skip_slashes p ≡ c ∷ q
    → skip_slashes (p ++ r) ≡ c ∷ q ++ r
unfolding skip_slashes
skip_slashes-append_cons [] r c q e = absurd (cc e)
skip_slashes-append_cons (b ∷ p) r c q e = elim (Bool-cases (b == slash)) [
  | inl h ↦ rw h (skip_slashes-append_cons p r c q (rw h at e))
  | inr h ↦ rw h (ap (λ l. l ++ r) (rw h at e))
]

-- A component does not reach over a slash.
component-append :
    (n : ℕ) (p r : List ℕ)
    → component n (p ++ slash ∷ r) ≡ ((component n p).0, (component n p).1 ++ slash ∷ r)
unfolding component
component-append zero p r = refl
component-append (suc n) [] r = refl
component-append (suc n) (c ∷ p) r = elim (Bool-cases (c == slash)) [
  | inl h ↦ rw h refl
  | inr h ↦ rw (h, component-append n p r) refl
]

-- A walk, and another one from where it ends.
unfoldable pub walk_on : List VfsInode → Option ℕ → List ℕ → Option ℕ
walk_on t none r = none
walk_on t (some d) r = walk_path t (length r) d r

module _ (t : List VfsInode) (r : List ℕ) where
  walk-rest :
      (n m cur : ℕ) (p : List ℕ)
      → length (p ++ slash ∷ r) ≤ suc n
      → skip_slashes p ≡ []
      → walk_path t (suc n) cur (p ++ slash ∷ r) ≡ walk_on t (walk_path t m cur p) r
  unfolding walk_path walk_on
  walk-rest n m cur p hn e =
      rw (walk_path, skip_slashes-append p r e, walk-slashes t m cur p e)
        (walk_fuel t (suc n) (length r) cur r (omega (arith, length-append p (slash ∷ r)))
          (omega arith))

  -- A path in two parts is walked one after the other.
  pub walk-append :
      (n m cur : ℕ) (p : List ℕ)
      → length (p ++ slash ∷ r) ≤ n
      → length p ≤ m
      → walk_path t n cur (p ++ slash ∷ r) ≡ walk_on t (walk_path t m cur p) r
  unfolding walk_on Skipped
  walk-append zero m cur p hn hm = absurd (omega (arith, length-append p (slash ∷ r)))
  walk-append (suc n) zero cur [] hn hm = walk-rest n zero cur [] hn (skip_slashes-nil)
  walk-append (suc n) zero cur (c ∷ p) hn hm = absurd (omega arith)
  walk-append (suc n) (suc m) cur p hn hm = elim (skip_slashes-Skipped p) [
    | inl e ↦ walk-rest n (suc m) cur p hn e
    | inr (c, q, e, ne, le) ↦
        let less = component-less 58 c q ne in
        let e' = skip_slashes-append_cons p (slash ∷ r) c q e in
        let rest = (component 59 (c ∷ q)).1 in
        let parts = component-append 59 (c ∷ q) r in
        elim (Option-cases (dir_find t cur (component 59 (c ∷ q)).0)) [
          | inl h ↦
              walk-stops t n cur c _ _ e' (rw parts h)
              ∙ sym (ap (λ o. walk_on t o r) (walk-stops t m cur c p q e h))
          | inr (next, h) ↦
              walk-round t n cur c _ _ e' (rw parts h)
              ∙ ap (λ k. walk_path t n next k.1) parts
              ∙ walk-append n m next rest
                  (omega (arith, less, length-append p (slash ∷ r), length-append rest (slash ∷ r)))
                  (omega arith)
              ∙ sym (ap (λ o. walk_on t o r) (walk-round t m cur c p q e h))
        ]
  ]
