-- ===== src/Fs/Ramfs/Create.antt =====
-- `ramfs_create_file` and `ramfs_create_dir` of fs/ramfs.c, on all branches.
use plant_os.Base.{
  ℕ, ◌^◌, ◌<◌, ◌≡◌, ◌≢◌, refl, sym, ap, ◌∙◌, inl, inr, true, false, not, Option, none, some, List,
  [], length, set, get_or-set, set-set_self, ◌==◌, ==_iff, Bool-cases, arith, find_index-cases,
}
use mathlib.Core.Path.{subst}
use plant_os.Fs.Ramfs.{VfsInode, no_inode, inode_at, vfs_name_max, dir_find, alloc_inode}
use plant_os.Fs.Ramfs.Calls.{owned, new_node, attach_node, add_node}
use plant_os.Fs.Ramfs.Entries.{dir_find-leads, leads-unused, dir_find-set}
use plant_os.Fs.Ramfs.Tree.{all_used, no_entry, failed, added, IsUsed, IsTree, HasAdded, IsAdded}
use plant_os.Fs.Ramfs.Grow.{longer, dir_add_entry-cases}
use plant_os.Fs.Ramfs.Added.{used-ne, added'}

pub at-this : (t : List VfsInode) (k : ℕ) (n : VfsInode) → k < length t → inode_at (set t k n) k ≡ n
at-this t k n in_range =
    let e : (k == k) ≡ true = ground arith in get_or-set t k k n no_inode in_range ∙ rw e refl

pub at-other :
    (t : List VfsInode) (k : ℕ) (n : VfsInode) (i : ℕ)
    → k < length t
    → i ≢ k
    → inode_at (set t k n) i ≡ inode_at t i
at-other t k n i in_range ne =
    let e : (k == i) ≡ false = ground (arith, ne) in
    get_or-set t k i n no_inode in_range ∙ rw e refl

-- A store of a free inode over a free one.
module _ (t : List VfsInode) (tree : IsTree t) (ino : ℕ) (in_range : ino < length t)
    (free : (inode_at t ino).used ≡ false) (n : VfsInode) (n_free : n.used ≡ false) where
  finds-same : (i : ℕ) (w : List ℕ) → dir_find (set t ino n) i w ≡ dir_find t i w
  finds-same i w = dir_find-set t ino n i w in_range ∙ elim (Bool-cases (ino == i)) [
    | inl e ↦
        let same : ino ≡ i = (==_iff _ _).0 e in
        rw e (
          leads-unused n w n_free
          ∙ sym (leads-unused (inode_at t i) w (rw same at free))
          ∙ sym (dir_find-leads t i w))
    | inr e ↦ rw e refl
  ]

  used-same : (i : ℕ) → IsUsed (set t ino n) i → i ≢ ino
  used-same i used eq =
      let this : (ino == i) ≡ true = ground (arith, eq) in
      let stored : inode_at (set t ino n) i ≡ n =
        get_or-set t ino i n no_inode in_range ∙ rw this refl in
      absurd (ground (arith, n_free, rw stored at used))

  same-IsTree : IsTree (set t ino n)
  same-IsTree = record {
    root =
        rw (at-other t ino n 0 in_range (used-ne t tree ino in_range free 0 tree.root)) tree.root;
    root_dir =
        rw (at-other t ino n 0 in_range (used-ne t tree ino in_range free 0 tree.root))
          tree.root_dir;
    dirs = λ i used dir.
        let old = at-other t ino n i in_range (used-same i used) in
        rw old (tree.dirs i (rw old at used) (rw old at dir));
    child_used = λ i w c e.
        let used = tree.child_used i w c (sym (finds-same i w) ∙ e) in
        rw (at-other t ino n c in_range (used-ne t tree ino in_range free c used)) used;
    once = λ i j w v c e e'.
        tree.once i j w v c (sym (finds-same i w) ∙ e) (sym (finds-same j v) ∙ e');
  }

-- A new inode, of a user or of none.
record IsNew (type : ℕ) (n m : VfsInode) : Type 0 where
  typed : m.type ≡ type
  used : m.used ≡ n.used
  entries : m.entries ≡ []
  size : m.size ≡ 0
  bytes : m.bytes ≡ []

new_node-IsNew :
    (user : Option (ℕ × ℕ)) (type mode : ℕ) (n : VfsInode)
    → IsNew type n (new_node user type mode n)
unfolding new_node owned
new_node-IsNew none type mode n = record {
  typed = refl;
  used = refl;
  entries = refl;
  size = refl;
  bytes = refl;
}
new_node-IsNew (some (uid, gid)) type mode n = record {
  bytes = refl;
  typed = refl;
  used = refl;
  entries = refl;
  size = refl;
}

module _ (kmalloc : ℕ → Option (List ℕ)) (user : Option (ℕ × ℕ)) (type mode : ℕ) (t : List VfsInode)
    (tree : IsTree t) (d : ℕ) (name : List ℕ) (d_used : IsUsed t d)
    (small : (inode_at t d).size < 2 ^ 31) (fits : length name < vfs_name_max)
    (absent : dir_find t d name ≡ none) where
  attach-IsAdded :
      (ino : ℕ) (node : VfsInode)
      → ino < length t
      → (inode_at t ino).used ≡ false
      → node.used ≡ true
      → node.type ≡ type
      → node.entries ≡ []
      → node.size ≡ 0
      → node.bytes ≡ []
      → IsAdded kmalloc t d name type (attach_node kmalloc (set t ino node) d name ino)
  unfolding attach_node
  attach-IsAdded ino node in_range free used typed entries size bytes =
      let at_d : inode_at (set t ino node) d ≡ inode_at t d =
        at-other t ino node d in_range (used-ne t tree ino in_range free d d_used) in
      elim (dir_add_entry-cases kmalloc (set t ino node) d name ino) [
        | inl (e, why) ↦
            let gone = record (inode_at (set t ino node) ino) { used = false } in
            rw (attach_node, e, set-set_self t ino node gone)
              (failed (finds-same t tree ino in_range free gone refl)
                (λ i used_i.
                  at-other t ino gone i in_range (used-ne t tree ino in_range free i used_i))
                (same-IsTree t tree ino in_range free gone refl) (no_entry (rw at_d at why)))
        | inr (room, dir, e) ↦
            rw (attach_node, e, at_d)
              (added ino (
                subst
                  (λ a.
                    HasAdded t d name a ino
                      (set (set t ino node) d (longer (inode_at t d) name ino room)))
                  typed
                  (added' t tree ino in_range free d name node room d_used (rw at_d at dir) small
                    fits absent used entries size bytes)))
      ]

  -- `add_node` adds the entry, or fails and leaves every name.
  pub add_node-IsAdded : IsAdded kmalloc t d name type (add_node kmalloc user type mode t d name)
  unfolding add_node alloc_inode
  add_node-IsAdded = elim (find_index-cases (λ n. not n.used) no_inode t) [
    | inl (e, all) ↦
        rw (add_node, alloc_inode, e)
          (failed (λ i w. refl) (λ i used. refl) tree (all_used (λ i lt. ground (arith, all i lt))))
    | inr (ino, e, f) ↦
        let fresh = record no_inode { used = true } in
        let node = new_node user type mode (inode_at (set t ino fresh) ino) in
        let k = new_node-IsNew user type mode (inode_at (set t ino fresh) ino) in
        let stored : set (set t ino fresh) ino node ≡ set t ino node =
          set-set_self t ino fresh node in
        let free : (inode_at t ino).used ≡ false = ground (arith, f.passes) in
        rw (add_node, alloc_inode, e, stored)
          (attach-IsAdded ino node f.in_range free
            (k.used ∙ ap (λ n. n.used) (at-this t ino fresh f.in_range)) k.typed k.entries k.size
            k.bytes)
  ]
