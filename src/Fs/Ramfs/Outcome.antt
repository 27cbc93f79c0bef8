-- ===== src/Fs/Ramfs/Outcome.antt =====
-- What `ramfs_create_file` and `ramfs_create_dir` of fs/ramfs.c may do.
use plant_os.Base.{ℕ, ◌≡◌, false, Option, none, some, List}
use plant_os.Fs.Ramfs.{
  VfsInode, inode_at, vfs_file, vfs_dir, ramfs_resolve_path, Run, overrun, returns,
}
use plant_os.Fs.Ramfs.Tree.{IsUsed, IsTree, IsEmpty, NotAdded}
use plant_os.Fs.Ramfs.Split.{Split, NoParent, TooLong}

-- A new and empty inode at the path; the paths that led to an inode still do, and the files are as they were.
pub record HasMade (t : List VfsInode) (path : List ℕ) (type ino : ℕ) (t' : List VfsInode)
    : Type 0 where
  pub was_free : (inode_at t ino).used ≡ false
  pub now_used : IsUsed t' ino
  pub typed : (inode_at t' ino).type ≡ type
  pub empty : IsEmpty (inode_at t' ino)
  pub resolves : ramfs_resolve_path t' path ≡ some ino
  pub keeps :
      (q : List ℕ) (j : ℕ) → ramfs_resolve_path t q ≡ some j → ramfs_resolve_path t' q ≡ some j
  pub files : (i : ℕ) → IsUsed t i → (inode_at t i).type ≡ vfs_file → inode_at t' i ≡ inode_at t i
  pub tree : IsTree t'

-- Why nothing is made at the path.
pub data NotMade (kmalloc : ℕ → Option (List ℕ)) (t : List VfsInode) (path : List ℕ) (type : ℕ)
    : Type 0 where
  no_parts : NoParent path → NotMade kmalloc t path type
  no_parent :
      (parent name : List ℕ)
      → Split path parent name
      → ramfs_resolve_path t parent ≡ none
      → NotMade kmalloc t path type
  exists :
      (i : ℕ) → type ≡ vfs_dir → ramfs_resolve_path t path ≡ some i → NotMade kmalloc t path type
  not_added :
      (parent name : List ℕ) (d : ℕ)
      → Split path parent name
      → ramfs_resolve_path t parent ≡ some d
      → NotAdded kmalloc t d
      → NotMade kmalloc t path type

-- A new inode, or the file or directory that the path of a file to make leads to already, or -1 for a
-- reason, with every path and every inode in use as before, or a store behind an array.
pub data IsMade (kmalloc : ℕ → Option (List ℕ)) (t : List VfsInode) (path : List ℕ) (type : ℕ)
    : Run (List VfsInode × Option ℕ) → Type 0 where
  made :
      {t' : List VfsInode} (ino : ℕ)
      → HasMade t path type ino t'
      → IsMade kmalloc t path type (returns (t', some ino))
  there :
      (i : ℕ)
      → type ≡ vfs_file
      → ramfs_resolve_path t path ≡ some i
      → IsMade kmalloc t path type (returns (t, some i))
  refused :
      {t' : List VfsInode}
      → NotMade kmalloc t path type
      → ((q : List ℕ) → ramfs_resolve_path t' q ≡ ramfs_resolve_path t q)
      → ((i : ℕ) → IsUsed t i → inode_at t' i ≡ inode_at t i)
      → IsTree t'
      → IsMade kmalloc t path type (returns (t', none))
  overran :
      (parent name : List ℕ)
      → Split path parent name
      → TooLong parent name
      → IsMade kmalloc t path type overrun
