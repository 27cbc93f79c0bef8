-- ===== src/Fs/Ramfs/Made.antt =====
-- `ramfs_create_file` and `ramfs_create_dir` of fs/ramfs.c: the paths after a call.
use plant_os.Base.{
  ℕ, zero, suc, ◌-◌, ◌^◌, ◌<◌, ◌≡◌, ◌≢◌, refl, sym, ap, ap₂, ◌∙◌, ◌⊎◌, inl, inr, true, ◌&&◌, Option,
  none, some, List, [], length, get_or-replicate, ◌==◌, ==_iff, Bool-cases, Option-cases, arith,
  &&-eq-true,
}
use mathlib.Core.Option.{none-ne-some}
use plant_os.Kernel.Env.{str_eq}
use plant_os.Kernel.Env.Lookup.{str_eq-eq, str_eq_self}
use plant_os.Fs.Ramfs.{
  VfsInode, no_inode, inode_at, vfs_dir, vfs_name_max, dir_find, vfs_file, ramfs_init,
  vfs_max_inodes, ramfs_resolve_path, Run, returns, split_path,
}
use plant_os.Fs.Ramfs.Calls.{
  add_node, create_file_at, ramfs_create_file, create_dir_at, ramfs_create_dir,
}
use plant_os.Fs.Ramfs.Entries.{Distinct, dir_find-leads}
use plant_os.Fs.Ramfs.Tree.{leads-empty, failed, added, IsUsed, IsTree, HasAdded, IsAdded}
use plant_os.Fs.Ramfs.Split.{IsName, Split, IsParted, whole, too_long, parted, split_path-IsParted}
use plant_os.Fs.Ramfs.Change.{
  name-IsName, resolve-keeps, resolve-same, resolve-IsUsed, resolve-name,
}
use plant_os.Fs.Ramfs.Create.{add_node-IsAdded}
use plant_os.Fs.Ramfs.Outcome.{
  HasMade, no_parts, no_parent, exists, not_added, IsMade, made, there, refused, overran,
}

module _ (t : List VfsInode) (tree : IsTree t) (small : (i : ℕ) → (inode_at t i).size < 2 ^ 31)
    (path : List ℕ) where
  module _ (parent name : List ℕ) (d : ℕ) (split : Split path parent name)
      (short : length name < vfs_name_max) (up : ramfs_resolve_path t parent ≡ some d)
      (new : ramfs_resolve_path t path ≡ none) where
    away : ramfs_resolve_path t path ≢ some d
    away e = none-ne-some _ (sym new ∙ e)

    d-IsUsed : IsUsed t d
    d-IsUsed = resolve-IsUsed t tree parent d up

    named : IsName name
    named = name-IsName t path parent name d split up away short

    absent : dir_find t d name ≡ none
    absent = sym (resolve-name t path parent name d split up named) ∙ new

    HasAdded-HasMade :
        (type ino : ℕ) (t' : List VfsInode)
        → HasAdded t d name type ino t'
        → HasMade t path type ino t'
    HasAdded-HasMade type ino t' h = record {
      was_free = h.was_free;
      now_used = h.now_used;
      typed = h.typed;
      empty = h.empty;
      resolves =
          let this : (d == d) ≡ true = ground arith in
          resolve-name t' path parent name d split (keeps parent d up) named
          ∙ h.finds d name
          ∙ rw (this, str_eq_self name) refl;
      keeps = keeps;
      files = λ i used file.
          h.others i (λ eq. omega (arith, ap (λ k. (inode_at t k).type) eq, file, h.in_dir))
            (λ eq. absurd (ground (arith, used, rw (sym eq) at h.was_free)));
      tree = h.tree;
    }
      where
        step :
            (i : ℕ) (w : List ℕ) (c : ℕ)
            → dir_find t i w ≡ some c
            → (dir_find t' i w ≡ some c) ⊎ (c < 0)
        step i w c e = elim (Bool-cases ((d == i) && str_eq name w)) [
          | inl m ↦
              let both = &&-eq-true _ _ m in
              let same_d : d ≡ i = (==_iff _ _).0 both.0 in
              let same_name = str_eq-eq name w both.1 in
              absurd (none-ne-some _ (sym absent ∙ ap₂ (dir_find t) same_d same_name ∙ e))
          | inr m ↦ inl (h.finds i w ∙ rw m e)
        ]

        keeps :
            (q : List ℕ) (j : ℕ)
            → ramfs_resolve_path t q ≡ some j
            → ramfs_resolve_path t' q ≡ some j
        keeps q j e =
            resolve-keeps t t' (λ c. c < 0) (λ c dead. absurd (omega (arith, dead))) step q j
              (λ dead. omega (arith, dead)) e

    IsAdded-IsMade :
        (kmalloc : ℕ → Option (List ℕ)) (type : ℕ) (r : List VfsInode × Option ℕ)
        → IsAdded kmalloc t d name type r
        → IsMade kmalloc t path type (returns r)
    IsAdded-IsMade kmalloc type r (added ino h) = made ino (HasAdded-HasMade type ino _ h)
    IsAdded-IsMade kmalloc type r (failed same files tree' why) =
        refused (not_added parent name d split up why) (resolve-same t _ same) files tree'

  module _ (kmalloc : ℕ → Option (List ℕ)) (user : Option (ℕ × ℕ)) where
    new-IsMade :
        (type mode : ℕ) (parent name : List ℕ) (d : ℕ)
        → Split path parent name
        → length name < vfs_name_max
        → ramfs_resolve_path t parent ≡ some d
        → ramfs_resolve_path t path ≡ none
        → IsMade kmalloc t path type (returns (add_node kmalloc user type mode t d name))
    new-IsMade type mode parent name d e short up new =
        IsAdded-IsMade parent name d e short up new kmalloc type _ (
          add_node-IsAdded kmalloc user type mode t tree d name
            (d-IsUsed parent name d e short up new) (small d) short
            (absent parent name d e short up new))

    create_file_at-IsMade :
        (r : Run (Option (List ℕ × List ℕ)))
        → IsParted path r
        → IsMade kmalloc t path vfs_file (create_file_at kmalloc user t path r)
    unfolding create_file_at
    create_file_at-IsMade r (whole e) = refused (no_parts e) (λ q. refl) (λ i used. refl) tree
    create_file_at-IsMade r (too_long parent name e long) = overran parent name e long
    create_file_at-IsMade r (parted parent name e _ short) =
        elim (Option-cases (ramfs_resolve_path t parent)) [
          | inl up ↦ rw up (refused (no_parent parent name e up) (λ q. refl) (λ i used. refl) tree)
          | inr (d, up) ↦ elim (Option-cases (ramfs_resolve_path t path)) [
            | inr (i, old) ↦ rw (up, old) (there i refl old)
            | inl new ↦ rw (up, new) (new-IsMade vfs_file 420 parent name d e short up new)
          ]
        ]

    -- On a tree of inodes with sizes below 2^31 `ramfs_create_file` makes an empty file at the path,
    -- where what led to an inode leads there still, the files are as they were, and the inodes are a
    -- tree; or it returns the inode that is there; or it fails and leaves every path and every inode
    -- in use: the path has no parent, or the parent is not there or no directory, or all inodes are
    -- used, or `kmalloc` gives no block for a longer directory; or the parent has 256 characters or
    -- more or the name 60 or more, and it stores behind an array.
    pub create_file-IsMade : IsMade kmalloc t path vfs_file (ramfs_create_file kmalloc user t path)
    unfolding ramfs_create_file
    create_file-IsMade = create_file_at-IsMade (split_path path) (split_path-IsParted path)

    create_dir_at-IsMade :
        (r : Run (Option (List ℕ × List ℕ)))
        → IsParted path r
        → IsMade kmalloc t path vfs_dir (create_dir_at kmalloc user t path r)
    unfolding create_dir_at
    create_dir_at-IsMade r (whole e) = refused (no_parts e) (λ q. refl) (λ i used. refl) tree
    create_dir_at-IsMade r (too_long parent name e long) = overran parent name e long
    create_dir_at-IsMade r (parted parent name e _ short) =
        elim (Option-cases (ramfs_resolve_path t parent)) [
          | inl up ↦ rw up (refused (no_parent parent name e up) (λ q. refl) (λ i used. refl) tree)
          | inr (d, up) ↦ elim (Option-cases (ramfs_resolve_path t path)) [
            | inr (i, old) ↦
                rw (up, old) (refused (exists i refl old) (λ q. refl) (λ i used. refl) tree)
            | inl new ↦ rw (up, new) (new-IsMade vfs_dir 493 parent name d e short up new)
          ]
        ]

    -- `ramfs_create_dir` makes an empty directory at the path, or fails for one of those reasons or
    -- since the path leads to an inode, and leaves every path, or stores behind an array.
    pub create_dir-IsMade : IsMade kmalloc t path vfs_dir (ramfs_create_dir kmalloc user t path)
    unfolding ramfs_create_dir
    create_dir-IsMade = create_dir_at-IsMade (split_path path) (split_path-IsParted path)

-- `ramfs_init`: the root and nothing else.
init-entries : (i : ℕ) → (inode_at ramfs_init i).entries ≡ []
unfolding ramfs_init
init-entries zero = refl
init-entries (suc i) = ap (λ n. n.entries) (get_or-replicate (vfs_max_inodes - 1) i no_inode)

init-nowhere : (i : ℕ) (w : List ℕ) → dir_find ramfs_init i w ≡ none
init-nowhere i w = dir_find-leads ramfs_init i w ∙ leads-empty _ w (init-entries i)

init-size : (i : ℕ) → (inode_at ramfs_init i).size ≡ 0
unfolding ramfs_init
init-size zero = refl
init-size (suc i) = ap (λ n. n.size) (get_or-replicate (vfs_max_inodes - 1) i no_inode)

pub init-small : (i : ℕ) → (inode_at ramfs_init i).size < 2 ^ 31
init-small i = rw (init-size i) (omega arith)

pub init-IsTree : IsTree ramfs_init
unfolding ramfs_init Distinct
init-IsTree = record {
  root = refl;
  root_dir = refl;
  dirs = λ i used dir. record {
    sized = rw (init-size i, init-entries i) refl;
    distinct = rw (init-entries i) refl;
  };
  child_used = λ i w c e. absurd (none-ne-some _ (sym (init-nowhere i w) ∙ e));
  once = λ i j w v c e e'. absurd (none-ne-some _ (sym (init-nowhere i w) ∙ e));
}
