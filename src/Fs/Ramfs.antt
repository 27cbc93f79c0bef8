-- ===== src/Fs/Ramfs.antt =====
-- fs/ramfs.c with the types of fs/vfs.h: the files in memory. A string is the list of its characters
-- before the NUL, and a path is never NULL. The memory of an inode is a list of bytes for a file and a
-- list of entries for a directory; both are empty at NULL.
pub mod Calls
pub mod Path
pub mod Split
pub mod Entries
pub mod Tree
pub mod Grow
pub mod Added
pub mod Change
pub mod Create
pub mod Outcome
pub mod Made
pub mod Unlink
pub mod Gone
pub mod Removed
mod Tests
use plant_os.Base.{
  ℕ, zero, suc, ◌+◌, ◌-◌, ◌*◌, ◌/◌, ◌%◌, ◌^◌, Bool, true, false, ◌&&◌, ◌||◌, not, Option, none,
  some, List, [], ◌∷◌, ◌++◌, length, get_or, set, take, drop, replicate, find_index, ltb, leb, ◌==◌,
  if◌then◌else◌,
}
use plant_os.Kernel.Env.{str_eq}

-- `struct vfs_dirent`
pub record VfsDirent : Type 0 where
  pub name : List ℕ
  pub inode : ℕ

-- `struct vfs_inode`; `data` is split into the `bytes` of a file and the `entries` of a directory.
pub record VfsInode : Type 0 where
  pub type : ℕ
  pub size : ℕ
  pub bytes : List ℕ
  pub entries : List VfsDirent
  pub capacity : ℕ
  pub used : Bool
  pub uid : ℕ
  pub gid : ℕ
  pub mode : ℕ

abbrev pub vfs_max_inodes : ℕ
vfs_max_inodes = 64

abbrev pub vfs_name_max : ℕ
vfs_name_max = 60

abbrev pub vfs_file : ℕ
vfs_file = 1

abbrev pub vfs_dir : ℕ
vfs_dir = 2

abbrev pub slash : ℕ
slash = 47

-- `sizeof(struct vfs_dirent)`
abbrev pub dirent_size : ℕ
dirent_size = 64

-- All bytes 0.
abbrev pub no_inode : VfsInode
no_inode = record {
  type = 0;
  size = 0;
  bytes = [];
  entries = [];
  capacity = 0;
  used = false;
  uid = 0;
  gid = 0;
  mode = 0;
}

abbrev pub inode_at : List VfsInode → ℕ → VfsInode
inode_at t i = get_or t i no_inode

unfoldable pub ramfs_get_inode : List VfsInode → ℕ → Option VfsInode
ramfs_get_inode t i = if ltb i (length t) && (inode_at t i).used then some (inode_at t i) else none

unfoldable pub alloc_inode : List VfsInode → Option (ℕ × List VfsInode)
alloc_inode t = elim (find_index (λ n. not n.used) t) [
  | none ↦ none
  | some i ↦ some (i, set t i (record no_inode { used = true }))
]

-- The entries that the size of a directory counts.
abbrev pub listed : VfsInode → List VfsDirent
listed dir = take (dir.size / dirent_size) dir.entries

-- Room for `needed` bytes; the entries move with the memory. `kmalloc` gives the bytes of a block.
unfoldable pub dir_grow : (ℕ → Option (List ℕ)) → VfsInode → ℕ → Option VfsInode
dir_grow kmalloc dir needed =
    let twice = needed * 2 % 2 ^ 32 in
    let new_cap = if ltb twice 512 then 512 else twice in
    if ltb dir.capacity needed
    then (elim (kmalloc new_cap) [
      | none ↦ none
      | some block ↦ some (record dir { capacity = new_cap })
    ])
    else some dir

-- `none` is the result -1.
unfoldable pub dir_add_entry :
    (ℕ → Option (List ℕ)) → List VfsInode → ℕ → List ℕ → ℕ → Option (List VfsInode)
dir_add_entry kmalloc t d name child =
    let dir = inode_at t d in
    let needed = (dir.size / dirent_size + 1) * dirent_size % 2 ^ 32 in
    let entry : VfsDirent = record { name = take (vfs_name_max - 1) name; inode = child } in
    if dir.type == vfs_dir
    then (elim (dir_grow kmalloc dir needed) [
      | none ↦ none
      | some grown ↦
          some (set t d (record grown { entries = listed dir ++ entry ∷ []; size = needed }))
    ])
    else none

unfoldable pub ramfs_dir_entry_count : List VfsInode → ℕ → ℕ
ramfs_dir_entry_count t i = elim (ramfs_get_inode t i) [
  | none ↦ 0
  | some dir ↦ if dir.type == vfs_dir then dir.size / dirent_size else 0
]

unfoldable pub ramfs_dir_get_entry : List VfsInode → ℕ → ℕ → Option VfsDirent
ramfs_dir_get_entry t i k = elim (ramfs_get_inode t i) [
  | none ↦ none
  | some dir ↦
      if dir.type == vfs_dir && ltb k (dir.size / dirent_size)
      then some (get_or dir.entries k (record { name = []; inode = 0 }))
      else none
]

-- `while (*p == '/') p++;`
unfoldable pub skip_slashes : List ℕ → List ℕ
skip_slashes [] = []
skip_slashes (c ∷ p) = let rest = skip_slashes p in if c == slash then rest else c ∷ p

-- At most `n` characters before a slash, and the rest of the path.
unfoldable pub component : ℕ → List ℕ → List ℕ × List ℕ
component zero p = ([], p)
component (suc n) [] = ([], [])
component (suc n) (c ∷ p) =
    let rest = component n p in if c == slash then ([], c ∷ p) else (c ∷ rest.0, rest.1)

-- The inode of the first entry with the name.
unfoldable pub entry_of : List VfsDirent → List ℕ → Option ℕ
entry_of [] name = none
entry_of (e ∷ es) name =
    let rest = entry_of es name in if str_eq e.name name then some e.inode else rest

-- The step of the walk from the inode `cur` with one component.
unfoldable pub dir_find : List VfsInode → ℕ → List ℕ → Option ℕ
dir_find t cur name = elim (ramfs_get_inode t cur) [
  | none ↦ none
  | some dir ↦ if dir.type == vfs_dir then entry_of (listed dir) name else none
]

-- `while (*p)`, on fuel: a round takes at least one character, so the length of the path is enough.
unfoldable pub walk_path : List VfsInode → ℕ → ℕ → List ℕ → Option ℕ
walk_path t zero cur p = some cur
walk_path t (suc n) cur p = elim (skip_slashes p) [
  | [] ↦ some cur
  | c ∷ q ↦
      let part = component (vfs_name_max - 1) (c ∷ q) in
      elim (dir_find t cur part.0) [ none ↦ none | some next ↦ walk_path t n next part.1 ]
]

-- The root alone is the path on which the walk makes no round. `none` is the result -1.
unfoldable pub ramfs_resolve_path : List VfsInode → List ℕ → Option ℕ
ramfs_resolve_path t [] = none
ramfs_resolve_path t (c ∷ p) = if c == slash then walk_path t (length p) 0 p else none

-- The place of the last slash at `i` or before it, or 0.
unfoldable pub last_slash : List ℕ → ℕ → ℕ
last_slash path zero = 0
last_slash path (suc i) =
    let rest = last_slash path i in if get_or path (suc i) 0 == slash then suc i else rest

-- A call returns, or it has stored behind the end of an array of its frame, and nothing is known then.
pub data Run (A : Type 0) : Type 0 where
  overrun : Run A
  returns : A → Run A

abbrev pub vfs_path_max : ℕ
vfs_path_max = 256

-- The parent and the name, with the NUL of each in an array of the caller, of `vfs_path_max` and of
-- `vfs_name_max` characters. The code does not look at the lengths. `none` is the result -1.
unfoldable pub split_path : List ℕ → Run (Option (List ℕ × List ℕ))
split_path path =
    let last = last_slash path (length path - 1) in
    let parent = if last == 0 then slash ∷ [] else take last path in
    let name = drop (suc last) path in
    if ltb (length path) 2 || not (get_or path 0 0 == slash)
    then returns none
    else if leb vfs_path_max (length parent) || leb vfs_name_max (length name)
    then overrun
    else returns (some (parent, name))

unfoldable pub ramfs_init : List VfsInode
ramfs_init =
    record no_inode { used = true; type = vfs_dir; mode = 493 }
    ∷ replicate (vfs_max_inodes - 1) no_inode
