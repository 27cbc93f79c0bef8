-- ===== src/Fs/Ramfs/Change.antt =====
-- What becomes of the paths of fs/ramfs.c when names lead elsewhere.
use plant_os.Base.{
  ℕ, zero, suc, ◌-◌, ◌<◌, ◌≡◌, ◌≢◌, refl, sym, ◌∙◌, ◌⊎◌, inl, inr, none, some, List, [], ◌∷◌,
  length, ◌==◌, Bool-cases, Option-cases, dec_lt, arith,
}
use mathlib.Core.Path.{subst}
use mathlib.Core.Option.{none-ne-some, some-injective}
use plant_os.Fs.Ramfs.{
  VfsInode, slash, vfs_name_max, component, dir_find, walk_path, ramfs_resolve_path,
}
use plant_os.Fs.Ramfs.Tree.{IsUsed, IsTree}
use plant_os.Fs.Ramfs.Split.{IsName, Split, Split-IsPlain, walk-name, resolve-Split}
use plant_os.Fs.Ramfs.Path.{
  walk_on, Skipped, skip_slashes-Skipped, walk-slashes, walk-round, walk-stops,
}

module _ (t t' : List VfsInode) where
  -- If the names that led to an inode which is not dead still do, and the dead ones lead nowhere, then
  -- the paths to an inode that is not dead still lead there.
  module _ (Dead : ℕ → Type 0) (ends : (c : ℕ) → Dead c → (w : List ℕ) → dir_find t c w ≡ none)
      (step : (i : ℕ) (w : List ℕ) (c : ℕ)
        → dir_find t i w ≡ some c
        → (dir_find t' i w ≡ some c) ⊎ Dead c) where
    walk-dead : (n cur j : ℕ) (p : List ℕ) → Dead cur → walk_path t n cur p ≡ some j → cur ≡ j
    unfolding Skipped walk_path
    walk-dead zero cur j p dead e = some-injective _ _ e
    walk-dead (suc n) cur j p dead e = elim (skip_slashes-Skipped p) [
      | inl h ↦ some-injective _ _ (sym (walk-slashes t (suc n) cur p h) ∙ e)
      | inr (c, q, h, ne, le) ↦
          absurd (none-ne-some _ (sym (walk-stops t n cur c p q h (ends cur dead _)) ∙ e))
    ]

    walk-keeps :
        (n cur j : ℕ) (p : List ℕ)
        → ¬ Dead j
        → walk_path t n cur p ≡ some j
        → walk_path t' n cur p ≡ some j
    unfolding Skipped walk_path
    walk-keeps zero cur j p alive e = e
    walk-keeps (suc n) cur j p alive e = elim (skip_slashes-Skipped p) [
      | inl h ↦ walk-slashes t' (suc n) cur p h ∙ sym (walk-slashes t (suc n) cur p h) ∙ e
      | inr (c, q, h, ne, le) ↦
          let w = (component (vfs_name_max - 1) (c ∷ q)).0 in
          elim (Option-cases (dir_find t cur w)) [
            | inl f ↦ absurd (none-ne-some _ (sym (walk-stops t n cur c p q h f) ∙ e))
            | inr (next, f) ↦
                let e' = sym (walk-round t n cur c p q h f) ∙ e in
                elim (step cur w next f) [
                  | inl f' ↦ walk-round t' n cur c p q h f' ∙ walk-keeps n next j _ alive e'
                  | inr dead ↦ absurd (alive (subst Dead (walk-dead n next j _ dead e') dead))
                ]
          ]
    ]

    pub resolve-keeps :
        (p : List ℕ) (j : ℕ)
        → ¬ Dead j
        → ramfs_resolve_path t p ≡ some j
        → ramfs_resolve_path t' p ≡ some j
    unfolding ramfs_resolve_path
    resolve-keeps [] j alive e = e
    resolve-keeps (c ∷ p) j alive e = elim (Bool-cases (c == slash)) [
      | inl h ↦ rw h (walk-keeps (length p) 0 j p alive (rw h at e))
      | inr h ↦ absurd (none-ne-some _ (rw h at e))
    ]

  -- The same names, the same paths.
  walk-same :
      ((i : ℕ) (w : List ℕ) → dir_find t' i w ≡ dir_find t i w)
      → (n cur : ℕ) (p : List ℕ) → walk_path t' n cur p ≡ walk_path t n cur p
  unfolding Skipped walk_path
  walk-same same zero cur p = refl
  walk-same same (suc n) cur p = elim (skip_slashes-Skipped p) [
    | inl h ↦ walk-slashes t' (suc n) cur p h ∙ sym (walk-slashes t (suc n) cur p h)
    | inr (c, q, h, ne, le) ↦
        let w = (component (vfs_name_max - 1) (c ∷ q)).0 in
        elim (Option-cases (dir_find t cur w)) [
          | inl f ↦
              walk-stops t' n cur c p q h (same cur w ∙ f) ∙ sym (walk-stops t n cur c p q h f)
          | inr (next, f) ↦
              walk-round t' n cur c p q h (same cur w ∙ f)
              ∙ walk-same same n next _
              ∙ sym (walk-round t n cur c p q h f)
        ]
  ]

  pub resolve-same :
      ((i : ℕ) (w : List ℕ) → dir_find t' i w ≡ dir_find t i w)
      → (p : List ℕ) → ramfs_resolve_path t' p ≡ ramfs_resolve_path t p
  unfolding ramfs_resolve_path
  resolve-same same [] = refl
  resolve-same same (c ∷ p) = elim (Bool-cases (c == slash)) [
    | inl h ↦ rw h (walk-same same (length p) 0 p)
    | inr h ↦ rw h refl
  ]

-- In a tree a path leads to an inode that is used.
module _ (t : List VfsInode) (tree : IsTree t) where
  walk-IsUsed :
      (n cur j : ℕ) (p : List ℕ) → IsUsed t cur → walk_path t n cur p ≡ some j → IsUsed t j
  unfolding Skipped walk_path
  walk-IsUsed zero cur j p used e = subst (IsUsed t) (some-injective _ _ e) used
  walk-IsUsed (suc n) cur j p used e = elim (skip_slashes-Skipped p) [
    | inl h ↦ subst (IsUsed t) (some-injective _ _ (sym (walk-slashes t (suc n) cur p h) ∙ e)) used
    | inr (c, q, h, ne, le) ↦
        let w = (component (vfs_name_max - 1) (c ∷ q)).0 in
        elim (Option-cases (dir_find t cur w)) [
          | inl f ↦ absurd (none-ne-some _ (sym (walk-stops t n cur c p q h f) ∙ e))
          | inr (next, f) ↦
              walk-IsUsed n next j _ (tree.child_used cur w next f)
                (sym (walk-round t n cur c p q h f) ∙ e)
        ]
  ]

  pub resolve-IsUsed : (p : List ℕ) (j : ℕ) → ramfs_resolve_path t p ≡ some j → IsUsed t j
  unfolding ramfs_resolve_path
  resolve-IsUsed [] j e = absurd (none-ne-some _ e)
  resolve-IsUsed (c ∷ p) j e = elim (Bool-cases (c == slash)) [
    | inl h ↦ walk-IsUsed (length p) 0 j p tree.root (rw h at e)
    | inr h ↦ absurd (none-ne-some _ (rw h at e))
  ]

-- A path through its parent.
module _ (t : List VfsInode) (path parent name : List ℕ) (d : ℕ) (split : Split path parent name)
    (up : ramfs_resolve_path t parent ≡ some d) where
  path-walk : ramfs_resolve_path t path ≡ walk_path t (length name) d name
  unfolding walk_on
  path-walk = resolve-Split t path parent name split ∙ rw up refl

  -- A path that leads elsewhere than its parent has a name.
  pub name-IsName : ramfs_resolve_path t path ≢ some d → length name < vfs_name_max → IsName name
  unfolding walk_path
  name-IsName away fits = record {
    nonempty = elim (dec_lt 0 (length name)) [
      | yes h ↦ h
      | no h ↦ absurd (away (path-walk ∙ walk-empty name (omega arith)))
    ];
    fits = fits;
    plain = Split-IsPlain split;
  }
    where
      walk-empty : (w : List ℕ) → length w ≡ 0 → walk_path t (length w) d w ≡ some d
      walk-empty [] h = refl
      walk-empty (c ∷ w) h = absurd (omega (arith, h))

  pub resolve-name : IsName name → ramfs_resolve_path t path ≡ dir_find t d name
  resolve-name h = path-walk ∙ walk-name t d name h
