-- ===== src/Fs/Ramfs/Tree.antt =====
-- What the operations of fs/ramfs.c keep: the inodes form a tree. What it is to add an entry to it.
use plant_os.Base.{
  ℕ, ◌≡◌, ◌≢◌, ◌<◌, refl, Bool, true, false, ◌&&◌, Option, none, some, List, [], length, take-nil,
  ◌==◌, if◌then◌else◌,
}
use plant_os.Kernel.Env.{str_eq}
use plant_os.Fs.Ramfs.{VfsInode, inode_at, vfs_dir, listed, entry_of, dir_find}
use plant_os.Fs.Ramfs.Entries.{IsDir, leads, listed_all}
use plant_os.Fs.Ramfs.Grow.{NoEntry}

abbrev pub IsUsed : List VfsInode → ℕ → Type 0
IsUsed t i = (inode_at t i).used ≡ true

-- A tree: names lead to inodes that are used, and no two of them to the same.
pub record IsTree (t : List VfsInode) : Type 0 where
  pub root : IsUsed t 0
  pub root_dir : (inode_at t 0).type ≡ vfs_dir
  pub dirs : (i : ℕ) → IsUsed t i → (inode_at t i).type ≡ vfs_dir → IsDir (inode_at t i)
  pub child_used : (i : ℕ) (name : List ℕ) (c : ℕ) → dir_find t i name ≡ some c → IsUsed t c
  pub once :
      (i j : ℕ) (name other : List ℕ) (c : ℕ)
      → dir_find t i name ≡ some c
      → dir_find t j other ≡ some c
      → (i ≡ j) × (name ≡ other)

-- Nothing is in the file or the directory.
pub record IsEmpty (n : VfsInode) : Type 0 where
  pub size : n.size ≡ 0
  pub bytes : n.bytes ≡ []
  pub entries : n.entries ≡ []

-- One more entry in the directory `d`, for the inode `ino`, which was free and is empty.
pub record HasAdded (t : List VfsInode) (d : ℕ) (name : List ℕ) (type ino : ℕ) (t' : List VfsInode)
    : Type 0 where
  pub was_free : (inode_at t ino).used ≡ false
  pub in_dir : (inode_at t d).type ≡ vfs_dir
  pub now_used : IsUsed t' ino
  pub typed : (inode_at t' ino).type ≡ type
  pub empty : IsEmpty (inode_at t' ino)
  pub finds :
      (i : ℕ) (w : List ℕ)
      → dir_find t' i w ≡ (if (d == i) && str_eq name w then some ino else dir_find t i w)
  pub others : (i : ℕ) → i ≢ d → i ≢ ino → inode_at t' i ≡ inode_at t i
  pub tree : IsTree t'

-- Why there is no new entry in `d`.
pub data NotAdded (kmalloc : ℕ → Option (List ℕ)) (t : List VfsInode) (d : ℕ) : Type 0 where
  all_used : ((i : ℕ) → i < length t → IsUsed t i) → NotAdded kmalloc t d
  no_entry : NoEntry kmalloc (inode_at t d) → NotAdded kmalloc t d

-- Added, or there is a reason why not; then all names lead where they did, and the inodes in use are as
-- they were.
pub data IsAdded (kmalloc : ℕ → Option (List ℕ)) (t : List VfsInode) (d : ℕ) (name : List ℕ)
    (type : ℕ) : List VfsInode × Option ℕ → Type 0 where
  added :
      {t' : List VfsInode} (ino : ℕ)
      → HasAdded t d name type ino t'
      → IsAdded kmalloc t d name type (t', some ino)
  failed :
      {t' : List VfsInode}
      → ((i : ℕ) (w : List ℕ) → dir_find t' i w ≡ dir_find t i w)
      → ((i : ℕ) → IsUsed t i → inode_at t' i ≡ inode_at t i)
      → IsTree t'
      → NotAdded kmalloc t d
      → IsAdded kmalloc t d name type (t', none)

pub leads-IsDir :
    (n : VfsInode) (w : List ℕ)
    → n.used ≡ true
    → n.type ≡ vfs_dir
    → IsDir n
    → leads n w ≡ entry_of n.entries w
unfolding leads
leads-IsDir n w used dir h = rw (used, dir, listed_all n h) refl

-- An inode without entries leads nowhere.
pub leads-empty : (n : VfsInode) (w : List ℕ) → n.entries ≡ [] → leads n w ≡ none
unfolding leads entry_of
leads-empty n w e =
    let none_listed : listed n ≡ [] = rw e (take-nil _) in rw none_listed (same_branches _)
  where
    same_branches : (b : Bool) → ◌≡◌ {A = Option ℕ} (if b then none else none) none
    same_branches true = refl
    same_branches false = refl
