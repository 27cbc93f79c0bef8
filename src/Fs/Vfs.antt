-- ===== src/Fs/Vfs.antt =====
-- fs/vfs.c: open files over the inodes of fs/ramfs.c, over the FAT driver, and the ends of pipes. A
-- descriptor is a natural number; the code refuses a negative one as it does one past the table. The
-- FAT driver is a parameter: its state and its operations. `kmalloc` gives the bytes of a block.
pub mod Names
pub mod Data
pub mod Content
pub mod Write
pub mod ReadBack
mod Tests
use plant_os.Base.{
  ℕ, zero, suc, ◌+◌, ◌-◌, ◌*◌, ◌/◌, ◌%◌, ◌^◌, Bool, true, false, ◌&&◌, ◌||◌, not, Option, none,
  some, List, [], ◌∷◌, ◌++◌, length, get_or, set, take, drop, replicate, find_index, ltb, leb, ◌==◌,
  if◌then◌else◌,
}
use plant_os.Kernel.Env.{str_eq}
use plant_os.Fs.Pipe.{Pipe, empty_pipe, drop_end}
use plant_os.Fs.Ramfs.{
  VfsDirent, VfsInode, no_inode, inode_at, vfs_file, vfs_dir, vfs_name_max, slash, ramfs_get_inode,
  ramfs_resolve_path, ramfs_dir_entry_count, ramfs_dir_get_entry,
}
use plant_os.Fs.Ramfs.Calls.{ramfs_create_file, ramfs_create_dir, ramfs_unlink}

-- `struct vfs_fd` with all its fields; `none` stands for NULL and for -1.
pub record OpenFile : Type 0 where
  pub used : Bool
  pub refcount : ℕ
  pub inode : ℕ
  pub offset : ℕ
  pub dir_idx : ℕ
  pub pipe : Option ℕ
  pub pipe_mode : ℕ
  pub fat_fd : Option ℕ

abbrev pub vfs_max_fds : ℕ
vfs_max_fds = 64

abbrev pub no_file : OpenFile
no_file = record {
  used = false;
  refcount = 0;
  inode = 0;
  offset = 0;
  dir_idx = 0;
  pipe = none;
  pipe_mode = 0;
  fat_fd = none;
}

-- `struct vfs_stat`
pub record VfsStat : Type 0 where
  pub type : ℕ
  pub size : ℕ
  pub inode : ℕ
  pub uid : ℕ
  pub gid : ℕ
  pub mode : ℕ

-- What vfs.c calls of fs/fat.c, on the state `F` of the driver. `none` is a negative result.
pub record Fat (F : Type 0) : Type 0 where
  pub fat_open : F → List ℕ → ℕ → F × Option ℕ
  pub fat_close : F → ℕ → F
  pub fat_read : F → ℕ → ℕ → F × Option (List ℕ)
  pub fat_write : F → ℕ → List ℕ → F × Option ℕ
  pub fat_stat : F → List ℕ → F × Option (ℕ × Bool)
  pub fat_mkdir : F → List ℕ → F × Option ℕ
  pub fat_unlink : F → List ℕ → F × Option ℕ
  pub fat_readdir : F → ℕ → F × Option (List ℕ)
  pub fat_unmount : F → F

-- The static state, that of ramfs.c and of pipe.c, and the driver's.
pub record Vfs (F : Type 0) : Type 0 where
  pub fd_table : List OpenFile
  pub inode_table : List VfsInode
  pub pipes : List Pipe
  pub fat_mpoint : List ℕ
  pub fat_mounted : Bool
  pub fat : F

abbrev pub file_at : {F : Type 0} → Vfs F → ℕ → OpenFile
file_at s fd = get_or s.fd_table fd no_file

-- `fd >= 0 && fd < VFS_MAX_FDS && fd_table[fd].used`
abbrev pub is_open : {F : Type 0} → Vfs F → ℕ → Bool
is_open s fd = ltb fd (length s.fd_table) && (file_at s fd).used

abbrev pub with_fd : {F : Type 0} → Vfs F → ℕ → OpenFile → Vfs F
with_fd s fd f = record s { fd_table = set s.fd_table fd f }

abbrev pub with_inode : {F : Type 0} → Vfs F → ℕ → VfsInode → Vfs F
with_inode s i n = record s { inode_table = set s.inode_table i n }

unfoldable pub vfs_alloc_fd : {F : Type 0} → Vfs F → Option (ℕ × Vfs F)
vfs_alloc_fd s = elim (find_index (λ f. not f.used) s.fd_table) [
  | none ↦ none
  | some i ↦ some (
    i,
    with_fd s i (record (file_at s i) {
      used = true;
      refcount = 1;
      offset = 0;
      dir_idx = 0;
      pipe = none;
      pipe_mode = 0;
      fat_fd = none;
    }),
  )
]

-- `strncmp(path, mpoint, strlen(mpoint)) == 0`, with the rest of the path.
unfoldable pub after_prefix : List ℕ → List ℕ → Option (List ℕ)
after_prefix path [] = some path
after_prefix [] (m ∷ ms) = none
after_prefix (c ∷ path) (m ∷ ms) = let rest = after_prefix path ms in if c == m then rest else none

unfoldable pub fat_subpath : {F : Type 0} → Vfs F → List ℕ → Option (List ℕ)
fat_subpath s path =
    if not s.fat_mounted || str_eq s.fat_mpoint []
    then none
    else (elim (after_prefix path s.fat_mpoint) [
      | none ↦ none
      | some [] ↦ some (slash ∷ [])
      | some (c ∷ rest) ↦ if c == slash then some (c ∷ rest) else none
    ])

-- The point without a slash at its end.
unfoldable pub trimmed : List ℕ → List ℕ
trimmed point =
    if ltb 1 (length point) && (get_or point (length point - 1) 0 == slash)
    then take (length point - 1) point
    else point

-- `none` is the result -1.
unfoldable pub vfs_mount_fat : {F : Type 0} → Vfs F → List ℕ → Option (Vfs F)
vfs_mount_fat s point =
    if s.fat_mounted
    then none
    else some (record s { fat_mpoint = trimmed (take 63 point); fat_mounted = true })

unfoldable pub vfs_unmount_fat : {F : Type 0} → Fat F → Vfs F → Vfs F
vfs_unmount_fat ops s =
    if s.fat_mounted
    then record s { fat = ops.fat_unmount s.fat; fat_mpoint = []; fat_mounted = false }
    else s

-- `(bits & want) == want` for two numbers of three bits: each bit of `want` is in `bits`.
unfoldable pub has_bits : ℕ → ℕ → Bool
has_bits bits want =
    (leb (want % 2) (bits % 2))
    && (leb (want / 2 % 2) (bits / 2 % 2))
    && (leb (want / 4 % 2) (bits / 4 % 2))

-- The task is its user and group; true where the code returns 0.
unfoldable pub vfs_check_perm : Option (ℕ × ℕ) → VfsInode → ℕ → Bool
vfs_check_perm none node want = true
vfs_check_perm (some (uid, gid)) node want =
    if uid == 0
    then true
    else has_bits
        (if uid == node.uid
          then node.mode / 64 % 8
          else if gid == node.gid
          then node.mode / 8 % 8
          else node.mode % 8)
        want

-- The flags `VFS_O_CREATE` (1) and `VFS_O_TRUNC` (2).
abbrev pub creates : ℕ → Bool
creates flags = flags % 2 == 1

abbrev pub truncates : ℕ → Bool
truncates flags = flags / 2 % 2 == 1
