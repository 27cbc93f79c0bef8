-- ===== src/Fs/Ramfs/Removed.antt =====
-- `ramfs_unlink` of fs/ramfs.c, on all branches.
use plant_os.Base.{
  ℕ, ◌≡◌, refl, sym, ap, ◌∙◌, ◌⊎◌, inl, inr, false, Option, none, some, List, [], ◌∷◌, ◌==◌,
  Bool-cases, Option-cases, arith,
}
use mathlib.Core.Option.{none-ne-some, some-injective}
use plant_os.Fs.Ramfs.{
  VfsInode, inode_at, ramfs_resolve_path, Run, returns, split_path, slash, walk_path,
}
use plant_os.Fs.Ramfs.Calls.{unlink_parts, ramfs_unlink}
use plant_os.Fs.Ramfs.Tree.{IsTree}
use plant_os.Fs.Ramfs.Split.{
  NoParent, IsParted, whole, too_long, parted, split_path-IsParted, resolve-Split,
}
use plant_os.Fs.Ramfs.Path.{walk_on}
use plant_os.Fs.Ramfs.Gone.{IsUnlinked, refused, overran, at-IsUnlinked}

-- A path that has no parent is the root's or leads nowhere.
no_split :
    (t : List VfsInode) (path : List ℕ)
    → NoParent path
    → (ramfs_resolve_path t path ≡ none) ⊎ (ramfs_resolve_path t path ≡ some 0)
unfolding ramfs_resolve_path walk_path
no_split t [] e = inl refl
no_split t (c ∷ []) e = elim (Bool-cases (c == slash)) [
  | inl h ↦ inr (rw h refl)
  | inr h ↦ inl (rw h refl)
]
no_split t (c ∷ b ∷ p) (inl short) = absurd (omega (arith, short))
no_split t (c ∷ b ∷ p) (inr other) =
    let h : (c == slash) ≡ false = ground (arith, other) in inl (rw h refl)

module _ (t : List VfsInode) (tree : IsTree t) (path : List ℕ) where
  no-path : ramfs_resolve_path t path ≡ none → IsUnlinked t path (returns none)
  no-path e = refused (λ j led file. absurd (none-ne-some _ (sym e ∙ led)))

  unlink_parts-IsUnlinked :
      (r : Run (Option (List ℕ × List ℕ)))
      → IsParted path r
      → IsUnlinked t path (unlink_parts t path r)
  unfolding unlink_parts walk_on
  unlink_parts-IsUnlinked r (too_long parent name split long) = overran parent name split long
  unlink_parts-IsUnlinked r (whole e) = elim (no_split t path e) [
    | inl nowhere ↦ no-path nowhere
    | inr root ↦ refused (λ j led file. absurd (
        omega (
          arith,
          ap (λ k. (inode_at t k).type) (some-injective _ _ (sym root ∙ led)),
          file,
          tree.root_dir,
        )))
  ]
  unlink_parts-IsUnlinked r (parted parent name split _ short) =
      elim (Option-cases (ramfs_resolve_path t parent)) [
        | inl up ↦ rw up (no-path (resolve-Split t path parent name split ∙ rw (up, walk_on) refl))
        | inr (d, up) ↦ elim (Option-cases (ramfs_resolve_path t path)) [
          | inl none_there ↦ rw (up, none_there) (no-path none_there)
          | inr (target, led) ↦
              rw (up, led) (at-IsUnlinked t tree path parent name d target split up led short)
        ]
      ]

  -- On a tree of inodes `ramfs_unlink` removes the file at the path, and no other path or file is
  -- changed, or it fails since the path does not lead to a file or ends in a slash behind one, or the
  -- parent of the path has 256 characters or more or its name 60 or more, and it stores behind an array.
  pub ramfs_unlink-IsUnlinked : IsUnlinked t path (ramfs_unlink t path)
  unfolding ramfs_unlink
  ramfs_unlink-IsUnlinked = unlink_parts-IsUnlinked (split_path path) (split_path-IsParted path)
