-- ===== src/Fs/Ramfs/Unlink.antt =====
-- `ramfs_unlink` of fs/ramfs.c: the tree of inodes without a file.
use plant_os.Base.{
  ℕ, ◌-◌, ◌≡◌, ◌≢◌, refl, sym, ap, ◌∙◌, inl, inr, true, false, ◌&&◌, none, some, List, [], set,
  get_or-set, length-set, ◌==◌, ==_iff, if◌then◌else◌, Bool-cases, ℕ_discrete, arith,
}
use mathlib.Core.Option.{none-ne-some}
use plant_os.Kernel.Env.{str_eq}
use plant_os.Kernel.Env.Lookup.{str_eq_self}
use plant_os.Fs.Ramfs.{
  VfsInode, no_inode, inode_at, vfs_dir, dirent_size, listed, entry_of, dir_find, vfs_file,
}
use plant_os.Fs.Ramfs.Calls.{remove_entry}
use plant_os.Fs.Ramfs.Entries.{
  IsDir, leads, dir_find-leads, listed_all, used_in_range, entry_of-remove, remove-Distinct,
  length-remove,
}
use plant_os.Fs.Ramfs.Tree.{IsUsed, IsTree, leads-IsDir}

-- The store without the entry `name` of the directory `d` and without the file `target`.
module _ (t : List VfsInode) (tree : IsTree t) (d target : ℕ) (name : List ℕ) (d_used : IsUsed t d)
    (d_dir : (inode_at t d).type ≡ vfs_dir) (t_used : IsUsed t target)
    (t_file : (inode_at t target).type ≡ vfs_file) (found : dir_find t d name ≡ some target) where
  abbrev pub dir' : VfsInode
  dir' = record (inode_at t d) {
    entries = remove_entry (listed (inode_at t d)) name;
    size = (inode_at t d).size - dirent_size;
  }

  abbrev node' : VfsInode
  node' = record (inode_at t target) { used = false; size = 0; bytes = []; capacity = 0 }

  abbrev pub t' : List VfsInode
  t' = set (set t d dir') target node'

  pub d-ne : d ≢ target
  d-ne eq = omega (arith, ap (λ k. (inode_at t k).type) eq, t_file, d_dir)

  d_IsDir : IsDir (inode_at t d)
  d_IsDir = tree.dirs d d_used d_dir

  d_listed : listed (inode_at t d) ≡ (inode_at t d).entries
  d_listed = listed_all _ d_IsDir

  leads_d : (w : List ℕ) → leads (inode_at t d) w ≡ entry_of (inode_at t d).entries w
  leads_d w = leads-IsDir _ w d_used d_dir d_IsDir

  in_entries : entry_of (inode_at t d).entries name ≡ some target
  in_entries = sym (leads_d name) ∙ sym (dir_find-leads t d name) ∙ found

  pub in_listed : entry_of (listed (inode_at t d)) name ≡ some target
  in_listed = rw d_listed in_entries

  dir'-IsDir : IsDir dir'
  dir'-IsDir = record {
    sized =
        let e = length-remove (inode_at t d).entries name in_entries in
        rw d_listed (omega (arith, e, d_IsDir.sized));
    distinct = rw d_listed (remove-Distinct (inode_at t d).entries name d_IsDir.distinct);
  }

  leads-dir' :
      (w : List ℕ) → leads dir' w ≡ (if str_eq name w then none else leads (inode_at t d) w)
  leads-dir' w =
      leads-IsDir dir' w d_used d_dir dir'-IsDir
      ∙ rw d_listed (entry_of-remove (inode_at t d).entries name w d_IsDir.distinct)
      ∙ ap (λ o. if str_eq name w then none else o) (sym (leads_d w))

  at' :
      (i : ℕ)
      → inode_at t' i ≡ (if target == i then node' else if d == i then dir' else inode_at t i)
  at' i =
      get_or-set (set t d dir') target i node' no_inode
        (rw (length-set t d dir') (used_in_range t target t_used))
      ∙ ap (λ n. if target == i then node' else n)
          (get_or-set t d i dir' no_inode (used_in_range t d d_used))

  pub leads-file : (n : VfsInode) (w : List ℕ) → n.type ≡ vfs_file → leads n w ≡ none
  unfolding leads
  leads-file n w e = elim (Bool-cases n.used) [ inl h ↦ rw (h, e) refl | inr h ↦ rw h refl ]

  pub finds' :
      (i : ℕ) (w : List ℕ)
      → dir_find t' i w ≡ (if (d == i) && str_eq name w then none else dir_find t i w)
  finds' i w =
      dir_find-leads t' i w ∙ ap (λ n. leads n w) (at' i) ∙ elim (Bool-cases (target == i)) [
        | inl e ↦
            let same : target ≡ i = (==_iff _ _).0 e in
            let other : (d == i) ≡ false = ground (arith, rw same at d-ne) in
            rw (e, other)
              (leads-file node' w t_file
                ∙ sym (leads-file (inode_at t i) w (rw same at t_file))
                ∙ sym (dir_find-leads t i w))
        | inr e ↦ elim (Bool-cases (d == i)) [
          | inl e' ↦
              let same : d ≡ i = (==_iff _ _).0 e' in
              rw (e, e')
                (leads-dir' w
                  ∙ ap (λ o. if str_eq name w then none else o)
                      (sym (dir_find-leads t d w) ∙ ap (λ k. dir_find t k w) same))
          | inr e' ↦ rw (e, e') (sym (dir_find-leads t i w))
        ]
      ]

  -- A name that leads somewhere led there before, and not to the file.
  pub child' :
      (i : ℕ) (w : List ℕ) (c : ℕ)
      → dir_find t' i w ≡ some c
      → (dir_find t i w ≡ some c) × (c ≢ target)
  child' i w c e =
      let f = finds' i w in
      elim (Bool-cases ((d == i) && str_eq name w)) [
        | inl h ↦ absurd (none-ne-some _ (sym (rw h at f) ∙ e))
        | inr h ↦
            let e' = sym (rw h at f) ∙ e in
            (
              e',
              λ eq.
                  let (same_d, same_name) = tree.once i d w name target (e' ∙ ap some eq) found in
                  let this : (d == i) ≡ true = ground (arith, same_d) in
                  let named : str_eq name w ≡ true = rw same_name (str_eq_self name) in
                  absurd (ground (arith, this, named, h)),
            )
      ]

  pub others' : (i : ℕ) → i ≢ d → i ≢ target → inode_at t' i ≡ inode_at t i
  others' i nd nt =
      let e : (d == i) ≡ false = ground (arith, nd) in
      let e' : (target == i) ≡ false = ground (arith, nt) in at' i ∙ rw (e, e') refl

  at_d : inode_at t' d ≡ dir'
  at_d =
      let e : (target == d) ≡ false = ground (arith, d-ne) in
      let e' : (d == d) ≡ true = ground arith in at' d ∙ rw (e, e') refl

  pub at_target : inode_at t' target ≡ node'
  at_target = let e : (target == target) ≡ true = ground arith in at' target ∙ rw e refl

  used' : (i : ℕ) → IsUsed t i → i ≢ target → IsUsed t' i
  used' i used ne = elim (ℕ_discrete i d) [
    | yes eq ↦ rw (eq, at_d) d_used
    | no nd ↦ rw (others' i nd ne) used
  ]

  used-before : (i : ℕ) → IsUsed t' i → i ≢ target
  used-before i used eq = absurd (ground (arith, rw (eq, at_target) at used))

  dirs' : (i : ℕ) → IsUsed t' i → (inode_at t' i).type ≡ vfs_dir → IsDir (inode_at t' i)
  dirs' i used dir = elim (ℕ_discrete i d) [
    | yes eq ↦ rw (eq, at_d) dir'-IsDir
    | no nd ↦
        let old = others' i nd (used-before i used) in
        rw old (tree.dirs i (rw old at used) (rw old at dir))
  ]

  root-ne : 0 ≢ target
  root-ne eq = omega (arith, ap (λ k. (inode_at t k).type) eq, t_file, tree.root_dir)

  root_dir' : (inode_at t' 0).type ≡ vfs_dir
  root_dir' = elim (ℕ_discrete 0 d) [
    | yes eq ↦ ap (λ k. (inode_at t' k).type) eq ∙ ap (λ n. n.type) at_d ∙ d_dir
    | no nd ↦ rw (others' 0 nd root-ne) tree.root_dir
  ]

  pub tree' : IsTree t'
  tree' = record {
    root = used' 0 tree.root root-ne;
    root_dir = root_dir';
    dirs = dirs';
    child_used = λ i w c e. let (e', ne) = child' i w c e in used' c (tree.child_used i w c e') ne;
    once = λ i j w v c e e'. tree.once i j w v c (child' i w c e).0 (child' j v c e').0;
  }
