-- ===== src/Fs/Ramfs/Gone.antt =====
-- `ramfs_unlink` of fs/ramfs.c: the paths without the file.
use plant_os.Base.{
  ℕ, ◌<◌, ◌≡◌, ◌≢◌, refl, sym, ap, ap₂, ◌∙◌, ◌⊎◌, inl, inr, true, false, ◌&&◌, Option, none, some,
  List, [], length, set, ◌==◌, ==_iff, if◌then◌else◌, Bool-cases, ℕ_discrete, arith, &&-eq-true,
}
use mathlib.Core.Option.{none-ne-some, some-injective}
use plant_os.Kernel.Env.{str_eq}
use plant_os.Kernel.Env.Lookup.{str_eq-eq, str_eq_self}
use plant_os.Fs.Ramfs.{
  VfsInode, inode_at, vfs_dir, vfs_name_max, dir_find, vfs_file, ramfs_resolve_path, Run, overrun,
  returns,
}
use plant_os.Fs.Ramfs.Calls.{without_entry, free_inode, unlink_at}
use plant_os.Fs.Ramfs.Entries.{get_inode-used, leads, dir_find-leads, used_in_range}
use plant_os.Fs.Ramfs.Tree.{IsUsed, IsTree}
use plant_os.Fs.Ramfs.Split.{IsName, Split, TooLong}
use plant_os.Fs.Ramfs.Change.{resolve-keeps, resolve-IsUsed, resolve-name, name-IsName}
use plant_os.Fs.Ramfs.Create.{at-other}
use plant_os.Fs.Ramfs.Unlink.{t', dir', in_listed, at_target, finds', others', tree', leads-file}

-- The file is gone; the paths that led elsewhere still do, and the other files are as they were.
pub record HasUnlinked (t : List VfsInode) (path : List ℕ) (t' : List VfsInode) : Type 0 where
  pub target : ℕ
  pub led : ramfs_resolve_path t path ≡ some target
  pub was_file : (inode_at t target).type ≡ vfs_file
  pub now_free : (inode_at t' target).used ≡ false
  pub gone : ramfs_resolve_path t' path ≡ none
  pub keeps :
      (q : List ℕ) (j : ℕ)
      → ramfs_resolve_path t q ≡ some j
      → j ≢ target
      → ramfs_resolve_path t' q ≡ some j
  pub files : (i : ℕ) → i ≢ target → (inode_at t i).type ≡ vfs_file → inode_at t' i ≡ inode_at t i
  pub tree : IsTree t'

-- Unlinked, or the path leads to no file, or it is the path of a file and a slash, or the parent or the
-- name is longer than its array.
pub data IsUnlinked (t : List VfsInode) (path : List ℕ)
    : Run (Option (List VfsInode)) → Type 0 where
  unlinked : {t' : List VfsInode} → HasUnlinked t path t' → IsUnlinked t path (returns (some t'))
  refused :
      ((j : ℕ)
        → ramfs_resolve_path t path ≡ some j
        → (inode_at t j).type ≡ vfs_file
        → (parent : List ℕ) × (name : List ℕ) × Split path parent name
          × (ramfs_resolve_path t parent ≡ some j))
      → IsUnlinked t path (returns none)
  overran :
      (parent name : List ℕ)
      → Split path parent name
      → TooLong parent name
      → IsUnlinked t path overrun

module _ (t : List VfsInode) (tree : IsTree t) (path parent name : List ℕ) (d target : ℕ)
    (split : Split path parent name) (up : ramfs_resolve_path t parent ≡ some d)
    (led : ramfs_resolve_path t path ≡ some target) (fits : length name < vfs_name_max) where
  d-IsUsed : IsUsed t d
  d-IsUsed = resolve-IsUsed t tree parent d up

  t-IsUsed : IsUsed t target
  t-IsUsed = resolve-IsUsed t tree path target led

  module _ (ne : d ≢ target) where
    named : IsName name
    named =
        name-IsName t path parent name d split up (λ e. ne (some-injective _ _ (sym e ∙ led))) fits

    found : dir_find t d name ≡ some target
    found = sym (resolve-name t path parent name d split up named) ∙ led

  module _ (t_file : (inode_at t target).type ≡ vfs_file)
      (d_dir : (inode_at t d).type ≡ vfs_dir) where
    abbrev ne : d ≢ target
    ne eq = omega (arith, ap (λ k. (inode_at t k).type) eq, t_file, d_dir)

    abbrev after : List VfsInode
    after = t' t tree d target name d-IsUsed d_dir t-IsUsed t_file (found ne)

    finds :
        (i : ℕ) (w : List ℕ)
        → dir_find after i w ≡ (if (d == i) && str_eq name w then none else dir_find t i w)
    finds = finds' t tree d target name d-IsUsed d_dir t-IsUsed t_file (found ne)

    ends : (c : ℕ) → c ≡ target → (w : List ℕ) → dir_find t c w ≡ none
    ends c eq w =
        dir_find-leads t c w
        ∙ leads-file t tree d target name d-IsUsed d_dir t-IsUsed t_file (found ne) (inode_at t c) w
            (ap (λ k. (inode_at t k).type) eq ∙ t_file)

    step :
        (i : ℕ) (w : List ℕ) (c : ℕ)
        → dir_find t i w ≡ some c
        → (dir_find after i w ≡ some c) ⊎ (c ≡ target)
    step i w c e = elim (Bool-cases ((d == i) && str_eq name w)) [
      | inl m ↦
          let both = &&-eq-true _ _ m in
          let same_d : d ≡ i = (==_iff _ _).0 both.0 in
          let same_name = str_eq-eq name w both.1 in
          inr (some-injective _ _ (sym e ∙ sym (ap₂ (dir_find t) same_d same_name) ∙ found ne))
      | inr m ↦ inl (finds i w ∙ rw m e)
    ]

    keeps :
        (q : List ℕ) (j : ℕ)
        → ramfs_resolve_path t q ≡ some j
        → j ≢ target
        → ramfs_resolve_path after q ≡ some j
    keeps q j e away = resolve-keeps t after (λ c. c ≡ target) ends step q j away e

    unlinked-HasUnlinked : HasUnlinked t path after
    unlinked-HasUnlinked = record {
      target = target;
      led = led;
      was_file = t_file;
      now_free =
          ap (λ n. n.used)
            (at_target t tree d target name d-IsUsed d_dir t-IsUsed t_file (found ne));
      gone =
          let this : (d == d) ≡ true = ground arith in
          resolve-name after path parent name d split (keeps parent d up ne) (named ne)
          ∙ finds d name
          ∙ rw (this, str_eq_self name) refl;
      keeps = keeps;
      files = λ i away file.
          others' t tree d target name d-IsUsed d_dir t-IsUsed t_file (found ne) i
            (λ eq. omega (arith, ap (λ k. (inode_at t k).type) eq, file, d_dir)) away;
      tree = tree' t tree d target name d-IsUsed d_dir t-IsUsed t_file (found ne);
    }

    unlink_at-done : unlink_at t d name target ≡ some after
    unfolding unlink_at without_entry free_inode
    unlink_at-done =
        let file : ((inode_at t target).type == vfs_file) ≡ true = (==_iff _ _).1 t_file in
        let dir : ((inode_at t d).type == vfs_dir) ≡ true = (==_iff _ _).1 d_dir in
        let shorter = dir' t tree d target name d-IsUsed d_dir t-IsUsed t_file (found ne) in
        let at_target =
          at-other t d shorter target (used_in_range t d d-IsUsed) (λ eq. ne (sym eq)) in
        let listed_there =
          in_listed t tree d target name d-IsUsed d_dir t-IsUsed t_file (found ne) in
        rw
          (
            unlink_at,
            get_inode-used t target t-IsUsed,
            get_inode-used t d d-IsUsed,
            file,
            dir,
            without_entry,
            listed_there,
          )
          (ap
            (λ n. some (
              set (set t d shorter) target
                (record n { used = false; size = 0; bytes = []; capacity = 0 })))
            at_target)

  same : ¬ ((inode_at t d).type ≡ vfs_dir) → d ≡ target
  unfolding leads
  same not_dir = elim (ℕ_discrete d target) [
    | yes eq ↦ eq
    | no ne ↦
        let e : ((inode_at t d).type == vfs_dir) ≡ false = ground (arith, not_dir) in
        let nowhere : leads (inode_at t d) name ≡ none = rw (d-IsUsed, e) refl in
        absurd (none-ne-some _ (sym nowhere ∙ sym (dir_find-leads t d name) ∙ found ne))
  ]

  pub at-IsUnlinked : IsUnlinked t path (returns (unlink_at t d name target))
  unfolding unlink_at
  at-IsUnlinked = elim (ℕ_discrete (inode_at t target).type vfs_file) [
    | no not_file ↦
        let e : ((inode_at t target).type == vfs_file) ≡ false = ground (arith, not_file) in
        rw (unlink_at, get_inode-used t target t-IsUsed, get_inode-used t d d-IsUsed, e)
          (refused (λ j led' file. absurd (
            not_file (ap (λ k. (inode_at t k).type) (some-injective _ _ (sym led ∙ led')) ∙ file))))
    | yes file ↦ elim (ℕ_discrete (inode_at t d).type vfs_dir) [
      | yes dir ↦ rw (unlink_at-done file dir) (unlinked (unlinked-HasUnlinked file dir))
      | no not_dir ↦
          let e : ((inode_at t target).type == vfs_file) ≡ true = (==_iff _ _).1 file in
          let e' : ((inode_at t d).type == vfs_dir) ≡ false = ground (arith, not_dir) in
          rw (unlink_at, get_inode-used t target t-IsUsed, get_inode-used t d d-IsUsed, e, e')
            (refused (λ j led' is_file.
              (parent, name, split, up ∙ ap some (same not_dir) ∙ sym led ∙ led')))
    ]
  ]
