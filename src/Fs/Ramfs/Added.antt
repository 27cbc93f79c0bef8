-- ===== src/Fs/Ramfs/Added.antt =====
-- The tree of fs/ramfs.c with one more entry, in the store that `add_node` leaves.
use plant_os.Base.{
  ℕ, ◌+◌, ◌-◌, ◌*◌, ◌^◌, ◌<◌, ◌≡◌, ◌≢◌, refl, sym, ap, ◌∙◌, ◌⊎◌, inl, inr, true, false, ◌&&◌, none,
  some, List, [], length, set, take, length-append, get_or-set, length-set, take_all, ◌==◌, ==_iff,
  if◌then◌else◌, Bool-cases, arith, &&-eq-true,
}
use mathlib.Core.Option.{some-injective}
use plant_os.Kernel.Env.{str_eq}
use plant_os.Kernel.Env.Lookup.{str_eq-eq}
use plant_os.Fs.Ramfs.{
  VfsInode, no_inode, inode_at, vfs_dir, vfs_name_max, dirent_size, listed, entry_of, dir_find,
}
use plant_os.Fs.Ramfs.Entries.{
  Distinct, IsDir, leads, dir_find-leads, listed_all, used_in_range, leads-unused, entry_of-append,
  append-Distinct,
}
use plant_os.Fs.Ramfs.Tree.{IsUsed, IsTree, HasAdded, leads-IsDir, leads-empty}
use plant_os.Fs.Ramfs.Grow.{longer}

module _ (t : List VfsInode) (tree : IsTree t) (ino : ℕ) (in_range : ino < length t)
    (free : (inode_at t ino).used ≡ false) where
  pub used-ne : (i : ℕ) → IsUsed t i → i ≢ ino
  used-ne i used eq = absurd (ground (arith, used, rw (sym eq) at free))

  -- A new entry.
  module _ (d : ℕ) (name : List ℕ) (node : VfsInode) (room : ℕ) (d_used : IsUsed t d)
      (d_dir : (inode_at t d).type ≡ vfs_dir) (small : (inode_at t d).size < 2 ^ 31)
      (fits : length name < vfs_name_max) (absent : dir_find t d name ≡ none)
      (node_used : node.used ≡ true) (node_empty : node.entries ≡ []) (node_size : node.size ≡ 0)
      (node_bytes : node.bytes ≡ []) where
    abbrev dir' : VfsInode
    dir' = longer (inode_at t d) name ino room

    abbrev t' : List VfsInode
    t' = set (set t ino node) d dir'

    d_in_range : d < length t
    d_in_range = used_in_range t d d_used

    d_listed : listed (inode_at t d) ≡ (inode_at t d).entries
    d_listed = listed_all _ (tree.dirs d d_used d_dir)

    leads_d : (w : List ℕ) → leads (inode_at t d) w ≡ entry_of (inode_at t d).entries w
    leads_d w = leads-IsDir _ w d_used d_dir (tree.dirs d d_used d_dir)

    name_whole : take (vfs_name_max - 1) name ≡ name
    name_whole = take_all (vfs_name_max - 1) name (omega (arith, fits))

    not_there : entry_of (inode_at t d).entries name ≡ none
    not_there = sym (leads_d name) ∙ sym (dir_find-leads t d name) ∙ absent

    size' : IsDir (inode_at t d) → dir'.size ≡ length dir'.entries * dirent_size
    size' h =
        let e : length dir'.entries ≡ length (inode_at t d).entries + 1 =
          length-append (listed (inode_at t d)) _ ∙ ap (λ l. length l + 1) d_listed in
        omega (arith, e, h.sized, small)

    dir'-IsDir : IsDir dir'
    dir'-IsDir = record {
      sized = size' (tree.dirs d d_used d_dir);
      distinct =
          rw (d_listed, name_whole)
            (append-Distinct _ (record { name = name; inode = ino })
              (tree.dirs d d_used d_dir).distinct not_there);
    }

    leads-dir' :
        (w : List ℕ) → leads dir' w ≡ (if str_eq name w then some ino else leads (inode_at t d) w)
    leads-dir' w =
        leads-IsDir dir' w d_used d_dir dir'-IsDir
        ∙ rw (d_listed, name_whole)
            (entry_of-append (inode_at t d).entries (record { name = name; inode = ino }) w
              not_there)
        ∙ ap (λ o. if str_eq name w then some ino else o) (sym (leads_d w))

    at' :
        (i : ℕ) → inode_at t' i ≡ (if d == i then dir' else if ino == i then node else inode_at t i)
    at' i =
        get_or-set (set t ino node) d i dir' no_inode (rw (length-set t ino node) d_in_range)
        ∙ ap (λ n. if d == i then dir' else n) (get_or-set t ino i node no_inode in_range)

    finds' :
        (i : ℕ) (w : List ℕ)
        → dir_find t' i w ≡ (if (d == i) && str_eq name w then some ino else dir_find t i w)
    finds' i w = dir_find-leads t' i w ∙ ap (λ n. leads n w) (at' i) ∙ elim (Bool-cases (d == i)) [
      | inl e ↦
          let same : d ≡ i = (==_iff _ _).0 e in
          rw e (
            leads-dir' w
            ∙ ap (λ o. if str_eq name w then some ino else o)
                (sym (dir_find-leads t d w) ∙ ap (λ k. dir_find t k w) same))
      | inr e ↦ elim (Bool-cases (ino == i)) [
        | inl e' ↦
            let same : ino ≡ i = (==_iff _ _).0 e' in
            rw (e, e')
              (leads-empty node w node_empty
                ∙ sym (leads-unused (inode_at t i) w (rw same at free))
                ∙ sym (dir_find-leads t i w))
        | inr e' ↦ rw (e, e') (sym (dir_find-leads t i w))
      ]
    ]

    used' : (i : ℕ) → IsUsed t i → IsUsed t' i
    used' i h = elim (Bool-cases (d == i)) [
      | inl e ↦ rw (at' i, e) d_used
      | inr e ↦ elim (Bool-cases (ino == i)) [
        | inl e' ↦ rw (at' i, e, e') node_used
        | inr e' ↦ rw (at' i, e, e') h
      ]
    ]

    at_ino : inode_at t' ino ≡ node
    at_ino =
        let other : (d == ino) ≡ false = ground (arith, used-ne d d_used) in
        let this : (ino == ino) ≡ true = ground arith in at' ino ∙ rw (other, this) refl

    ino-IsUsed' : IsUsed t' ino
    ino-IsUsed' = rw at_ino node_used

    child' :
        (i : ℕ) (w : List ℕ) (c : ℕ)
        → dir_find t' i w ≡ some c
        → ((d ≡ i) × (name ≡ w) × (ino ≡ c)) ⊎ ((dir_find t i w ≡ some c) × (c ≢ ino))
    child' i w c e =
        let f = finds' i w in
        elim (Bool-cases ((d == i) && str_eq name w)) [
          | inl h ↦
              let both = &&-eq-true _ _ h in
              inl (
                (==_iff _ _).0 both.0,
                str_eq-eq name w both.1,
                some-injective _ _ (sym (rw h at f) ∙ e),
              )
          | inr h ↦ let e' = sym (rw h at f) ∙ e in inr (e', used-ne c (tree.child_used i w c e'))
        ]

    node-IsDir : IsDir node
    unfolding Distinct
    node-IsDir = record { sized = rw (node_size, node_empty) refl; distinct = rw node_empty refl }

    dirs' : (i : ℕ) → IsUsed t' i → (inode_at t' i).type ≡ vfs_dir → IsDir (inode_at t' i)
    dirs' i used dir = elim (Bool-cases (d == i)) [
      | inl e ↦ rw (at' i, e) dir'-IsDir
      | inr e ↦ elim (Bool-cases (ino == i)) [
        | inl e' ↦ rw (at' i, e, e') node-IsDir
        | inr e' ↦
            let old : inode_at t' i ≡ inode_at t i = at' i ∙ rw (e, e') refl in
            rw old (tree.dirs i (rw old at used) (rw old at dir))
      ]
    ]

    once' :
        (i j : ℕ) (w v : List ℕ) (c : ℕ)
        → dir_find t' i w ≡ some c
        → dir_find t' j v ≡ some c
        → (i ≡ j) × (w ≡ v)
    once' i j w v c e e' = elim (child' i w c e) [
      | inl (di, nw, ic) ↦ elim (child' j v c e') [
        | inl (dj, nv, _) ↦ (sym di ∙ dj, sym nw ∙ nv)
        | inr (_, ne) ↦ absurd (ne (sym ic))
      ]
      | inr (f, ne) ↦ elim (child' j v c e') [
        | inl (_, _, ic) ↦ absurd (ne (sym ic))
        | inr (f', _) ↦ tree.once i j w v c f f'
      ]
    ]

    root_dir' : (inode_at t' 0).type ≡ vfs_dir
    root_dir' = elim (Bool-cases (d == 0)) [
      | inl e ↦ rw (at' 0, e) d_dir
      | inr e ↦
          let other : (ino == 0) ≡ false = ground (arith, used-ne 0 tree.root) in
          rw (at' 0, e, other) tree.root_dir
    ]

    tree' : IsTree t'
    tree' = record {
      root = used' 0 tree.root;
      root_dir = root_dir';
      dirs = dirs';
      child_used = λ i w c e. elim (child' i w c e) [
        | inl (_, _, eq) ↦ rw (sym eq) ino-IsUsed'
        | inr (e', _) ↦ used' c (tree.child_used i w c e')
      ];
      once = once';
    }

    others' : (i : ℕ) → i ≢ d → i ≢ ino → inode_at t' i ≡ inode_at t i
    others' i nd ni =
        let e : (d == i) ≡ false = ground (arith, nd) in
        let e' : (ino == i) ≡ false = ground (arith, ni) in at' i ∙ rw (e, e') refl

    pub added' : HasAdded t d name node.type ino t'
    added' = record {
      was_free = free;
      in_dir = d_dir;
      now_used = ino-IsUsed';
      typed = ap (λ n. n.type) at_ino;
      empty = rw at_ino (record { size = node_size; bytes = node_bytes; entries = node_empty });
      finds = finds';
      others = others';
      tree = tree';
    }
