-- ===== src/Fs/Ramfs/Calls.antt =====
-- The calls of fs/ramfs.c that make and remove files and directories.
use plant_os.Base.{ℕ, ◌-◌, false, ◌&&◌, Option, none, some, List, [], ◌∷◌, set, ◌==◌, if◌then◌else◌}
use plant_os.Kernel.Env.{str_eq}
use plant_os.Fs.Ramfs.{
  VfsDirent, VfsInode, inode_at, vfs_file, vfs_dir, listed, dirent_size, ramfs_get_inode,
  alloc_inode, dir_add_entry, entry_of, ramfs_resolve_path, Run, overrun, returns, split_path,
}

-- The owner is the current task's user and group, if there is a task.
unfoldable pub owned : Option (ℕ × ℕ) → VfsInode → VfsInode
owned none node = node
owned (some (uid, gid)) node = record node { uid = uid; gid = gid }

unfoldable pub new_node : Option (ℕ × ℕ) → ℕ → ℕ → VfsInode → VfsInode
new_node user type mode n =
    owned user
      (record n { type = type; size = 0; bytes = []; entries = []; capacity = 0; mode = mode })

-- The entry for the inode, which is free again when there is no room for the entry.
unfoldable pub attach_node :
    (ℕ → Option (List ℕ)) → List VfsInode → ℕ → List ℕ → ℕ → List VfsInode × Option ℕ
attach_node kmalloc t parent name ino = elim (dir_add_entry kmalloc t parent name ino) [
  | none ↦ (set t ino (record (inode_at t ino) { used = false }), none)
  | some t' ↦ (t', some ino)
]

-- What `ramfs_create_file` and `ramfs_create_dir` do once the name is free.
unfoldable pub add_node :
    (ℕ → Option (List ℕ))
    → Option (ℕ × ℕ)
    → ℕ
    → ℕ
    → List VfsInode
    → ℕ
    → List ℕ
    → List VfsInode × Option ℕ
add_node kmalloc user type mode t parent name = elim (alloc_inode t) [
  | none ↦ (t, none)
  | some (ino, t1) ↦
      let node = new_node user type mode (inode_at t1 ino) in
      attach_node kmalloc (set t1 ino node) parent name ino
]

-- `ramfs_create_file` and `ramfs_create_dir` behind `split_path`.
unfoldable pub create_file_at :
    (ℕ → Option (List ℕ))
    → Option (ℕ × ℕ)
    → List VfsInode
    → List ℕ
    → Run (Option (List ℕ × List ℕ))
    → Run (List VfsInode × Option ℕ)
create_file_at kmalloc user t path overrun = overrun
create_file_at kmalloc user t path (returns none) = returns (t, none)
create_file_at kmalloc user t path (returns (some (parent, name))) =
    returns (elim (ramfs_resolve_path t parent) [
      | none ↦ (t, none)
      | some d ↦ elim (ramfs_resolve_path t path) [
        | some existing ↦ (t, some existing)
        | none ↦ add_node kmalloc user vfs_file 420 t d name
      ]
    ])

unfoldable pub ramfs_create_file :
    (ℕ → Option (List ℕ)) → Option (ℕ × ℕ) → List VfsInode → List ℕ → Run (List VfsInode × Option ℕ)
ramfs_create_file kmalloc user t path = create_file_at kmalloc user t path (split_path path)

unfoldable pub create_dir_at :
    (ℕ → Option (List ℕ))
    → Option (ℕ × ℕ)
    → List VfsInode
    → List ℕ
    → Run (Option (List ℕ × List ℕ))
    → Run (List VfsInode × Option ℕ)
create_dir_at kmalloc user t path overrun = overrun
create_dir_at kmalloc user t path (returns none) = returns (t, none)
create_dir_at kmalloc user t path (returns (some (parent, name))) =
    returns (elim (ramfs_resolve_path t parent) [
      | none ↦ (t, none)
      | some d ↦ elim (ramfs_resolve_path t path) [
        | some existing ↦ (t, none)
        | none ↦ add_node kmalloc user vfs_dir 493 t d name
      ]
    ])

unfoldable pub ramfs_create_dir :
    (ℕ → Option (List ℕ)) → Option (ℕ × ℕ) → List VfsInode → List ℕ → Run (List VfsInode × Option ℕ)
ramfs_create_dir kmalloc user t path = create_dir_at kmalloc user t path (split_path path)

-- The entries after the first with the name shift down.
unfoldable pub remove_entry : List VfsDirent → List ℕ → List VfsDirent
remove_entry [] name = []
remove_entry (e ∷ es) name =
    let rest = remove_entry es name in if str_eq e.name name then es else e ∷ rest

unfoldable pub without_entry : VfsInode → List ℕ → VfsInode
without_entry dir name = elim (entry_of (listed dir) name) [
  | none ↦ dir
  | some i ↦ record dir { entries = remove_entry (listed dir) name; size = dir.size - dirent_size }
]

unfoldable pub free_inode : List VfsInode → ℕ → List VfsInode
free_inode t i =
    set t i (record (inode_at t i) { used = false; size = 0; bytes = []; capacity = 0 })

-- `none` is the result -1.
unfoldable pub unlink_at : List VfsInode → ℕ → List ℕ → ℕ → Option (List VfsInode)
unlink_at t d name target = elim (ramfs_get_inode t target) [
  | none ↦ none
  | some node ↦ elim (ramfs_get_inode t d) [
    | none ↦ none
    | some dir ↦
        if (node.type == vfs_file) && (dir.type == vfs_dir)
        then some (free_inode (set t d (without_entry dir name)) target)
        else none
  ]
]

-- `ramfs_unlink` behind `split_path`.
unfoldable pub unlink_parts :
    List VfsInode → List ℕ → Run (Option (List ℕ × List ℕ)) → Run (Option (List VfsInode))
unlink_parts t path overrun = overrun
unlink_parts t path (returns none) = returns none
unlink_parts t path (returns (some (parent, name))) = returns (elim (ramfs_resolve_path t parent) [
  | none ↦ none
  | some d ↦ elim (ramfs_resolve_path t path) [
    | none ↦ none
    | some target ↦ unlink_at t d name target
  ]
])

unfoldable pub ramfs_unlink : List VfsInode → List ℕ → Run (Option (List VfsInode))
ramfs_unlink t path = unlink_parts t path (split_path path)
