-- ===== src/Fs/Ramfs/Tests.antt =====
-- Runs of fs/ramfs.c from an empty tree: `/a` is made, and removed.
use plant_os.Base.{ℕ, ◌≡◌, refl, Option, none, some, List, [], ◌∷◌, replicate, find_index}
use plant_os.Kernel.Env.{str_eq}
use plant_os.Fs.Ramfs.{
  VfsInode, vfs_file, ramfs_init, ramfs_resolve_path, Run, overrun, returns, split_path, last_slash,
  walk_path, skip_slashes, component, dir_find, ramfs_get_inode, entry_of, alloc_inode,
  dir_add_entry, dir_grow,
}
use plant_os.Fs.Ramfs.Calls.{
  create_file_at, add_node, attach_node, new_node, owned, ramfs_create_file, ramfs_unlink,
}
use plant_os.Fs.Ramfs.Tree.{IsTree}
use plant_os.Fs.Ramfs.Made.{create_file-IsMade, init-small, init-IsTree}
use plant_os.Fs.Ramfs.Outcome.{IsMade, made, there, refused, overran}
use plant_os.Fs.Ramfs.Gone.{IsUnlinked}
use plant_os.Fs.Ramfs.Removed.{ramfs_unlink-IsUnlinked}

abbrev give_block : ℕ → Option (List ℕ)
give_block n = some (replicate n 0)

abbrev path : List ℕ
path = 47 ∷ 97 ∷ []

create_file-IsMade_example :
    IsMade give_block ramfs_init path vfs_file (ramfs_create_file give_block none ramfs_init path)
create_file-IsMade_example =
    create_file-IsMade ramfs_init init-IsTree init-small path give_block none

-- The inodes after a call that returns.
abbrev store_of : List VfsInode → Run (List VfsInode × Option ℕ) → List VfsInode
store_of t overrun = t
store_of t (returns r) = r.0

store_of-IsTree :
    {t : List VfsInode} {r : Run (List VfsInode × Option ℕ)}
    → IsTree t
    → IsMade give_block t path vfs_file r
    → IsTree (store_of t r)
store_of-IsTree tree (made ino h) = h.tree
store_of-IsTree tree (there i file led) = tree
store_of-IsTree tree (refused why same files tree') = tree'
store_of-IsTree tree (overran parent name split long) = tree

abbrev with_file : List VfsInode
with_file = store_of ramfs_init (ramfs_create_file give_block none ramfs_init path)

with_file-IsTree : IsTree with_file
with_file-IsTree =
    store_of-IsTree init-IsTree
      (create_file-IsMade ramfs_init init-IsTree init-small path give_block none)

ramfs_unlink-IsUnlinked_example : IsUnlinked with_file path (ramfs_unlink with_file path)
ramfs_unlink-IsUnlinked_example = ramfs_unlink-IsUnlinked with_file with_file-IsTree path

-- A name of 60 characters, without room for its NUL.
long_name : split_path (47 ∷ replicate 60 97) ≡ overrun
unfolding split_path last_slash
long_name = refl

-- The path leads to the inode 1 after the call.
path-made : ramfs_resolve_path with_file path ≡ some 1
unfolding ramfs_resolve_path walk_path skip_slashes component dir_find ramfs_get_inode entry_of
    str_eq split_path last_slash ramfs_create_file create_file_at add_node attach_node new_node
    owned alloc_inode find_index dir_add_entry dir_grow ramfs_init
path-made = refl
