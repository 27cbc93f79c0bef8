-- ===== src/Fs/Vfs/Data.antt =====
-- The calls of fs/vfs.c on a descriptor: read, write, seek, and the entries of a directory.
use plant_os.Base.{
  ℕ, ◌+◌, ◌-◌, ◌*◌, ◌%◌, ◌^◌, ◌&&◌, not, Option, none, some, List, [], ◌∷◌, length, set, take, drop,
  ltb, leb, ◌==◌, if◌then◌else◌,
}
use plant_os.Fs.Ramfs.{
  VfsDirent, VfsInode, vfs_file, vfs_dir, vfs_name_max, ramfs_get_inode, ramfs_dir_entry_count,
  ramfs_dir_get_entry,
}
use plant_os.Fs.Vfs.{Fat, Vfs, file_at, is_open, with_fd, with_inode}

-- `memcpy(bytes + i, xs, n)`. What falls behind the block is not in the list.
unfoldable pub memcpy_to : List ℕ → ℕ → List ℕ → List ℕ
memcpy_to bytes i [] = bytes
memcpy_to bytes i (x ∷ xs) = memcpy_to (set bytes i x) (i + 1) xs

-- The file with room for `needed` bytes; a new block has the old content and then what `kmalloc` left.
unfoldable pub file_grow : (ℕ → Option (List ℕ)) → VfsInode → ℕ → Option VfsInode
file_grow kmalloc node needed =
    let twice = needed * 2 % 2 ^ 32 in
    let new_cap = if ltb twice 256 then 256 else twice in
    if ltb node.capacity needed
    then (elim (kmalloc new_cap) [
      | none ↦ none
      | some block ↦ some (record node {
        bytes = memcpy_to block 0 (take node.size node.bytes);
        capacity = new_cap;
      })
    ])
    else some node

-- The file after the bytes are stored at `off`.
unfoldable pub file_put : VfsInode → ℕ → List ℕ → VfsInode
file_put node off xs =
    let needed = (off + length xs) % 2 ^ 32 in
    record node {
      bytes = memcpy_to node.bytes off xs;
      size = if ltb node.size needed then needed else node.size;
    }

-- `none` is -1. The offset and the result are the 32 bits of an `int`.
unfoldable pub seek_to : ℕ → VfsInode → ℕ → ℕ → Option ℕ
seek_to here node offset whence =
    if whence == 0
    then some (offset % 2 ^ 32)
    else if whence == 1
    then some ((here + offset) % 2 ^ 32)
    else if whence == 2
    then some ((node.size + offset) % 2 ^ 32)
    else none

module _ {F : Type 0} where
  unfoldable pub read_at : Vfs F → ℕ → VfsInode → ℕ → Vfs F × Option (List ℕ)
  read_at s fd node count =
      let f = file_at s fd in
      let avail = node.size - f.offset in
      let n = if ltb avail count then avail else count in
      if leb node.size f.offset then (s, some []) else (
        with_fd s fd (record f { offset = (f.offset + n) % 2 ^ 32 }),
        some (take n (drop f.offset node.bytes)),
      )

  unfoldable pub write_at : (ℕ → Option (List ℕ)) → Vfs F → ℕ → VfsInode → List ℕ → Vfs F × Option ℕ
  write_at kmalloc s fd node xs =
      let f = file_at s fd in
      let needed = (f.offset + length xs) % 2 ^ 32 in
      elim (file_grow kmalloc node needed) [
        | none ↦ (s, none)
        | some grown ↦ (
          with_fd (with_inode s f.inode (file_put grown f.offset xs)) fd
              (record f { offset = needed }),
          some (length xs),
        )
      ]

  -- The file of a descriptor: an inode in use, of type VFS_FILE.
  unfoldable pub file_of : Vfs F → ℕ → Option VfsInode
  file_of s fd = elim (ramfs_get_inode s.inode_table (file_at s fd).inode) [
    | none ↦ none
    | some node ↦ if node.type == vfs_file then some node else none
  ]

  unfoldable pub seek_file : Vfs F → ℕ → VfsInode → ℕ → ℕ → Option (Vfs F × ℕ)
  seek_file s fd node offset whence = elim (seek_to (file_at s fd).offset node offset whence) [
    | none ↦ none
    | some to ↦
        let new_off = if ltb to (2 ^ 31) then to else 0 in
        some (with_fd s fd (record (file_at s fd) { offset = new_off }), new_off)
  ]

  unfoldable pub vfs_lseek : Vfs F → ℕ → ℕ → ℕ → Option (Vfs F × ℕ)
  vfs_lseek s fd offset whence = if not (is_open s fd) then none else (elim (file_at s fd).pipe [
    | some p ↦ none
    | none ↦ elim (file_at s fd).fat_fd [
      | some ffd ↦ none
      | none ↦ elim (file_of s fd) [ none ↦ none | some node ↦ seek_file s fd node offset whence ]
    ]
  ])

  unfoldable pub read_entry : Vfs F → ℕ → VfsInode → Vfs F × Option VfsDirent
  read_entry s fd node =
      let f = file_at s fd in
      if (node.type == vfs_dir) && ltb f.dir_idx (ramfs_dir_entry_count s.inode_table f.inode)
      then (elim (ramfs_dir_get_entry s.inode_table f.inode f.dir_idx) [
        | none ↦ (s, none)
        | some e ↦ (with_fd s fd (record f { dir_idx = (f.dir_idx + 1) % 2 ^ 32 }), some e)
      ])
      else (s, none)

module _ {F : Type 0} (ops : Fat F) where
  -- The result has the bytes that `buf` gets.
  unfoldable pub vfs_read : Vfs F → ℕ → ℕ → Vfs F × Option (List ℕ)
  vfs_read s fd count = if not (is_open s fd) then (s, none) else (elim (file_at s fd).fat_fd [
    | some ffd ↦ let (fat, r) = ops.fat_read s.fat ffd count in (record s { fat = fat }, r)
    | none ↦ elim (file_of s fd) [ none ↦ (s, none) | some node ↦ read_at s fd node count ]
  ])

  unfoldable pub vfs_write : (ℕ → Option (List ℕ)) → Vfs F → ℕ → List ℕ → Vfs F × Option ℕ
  vfs_write kmalloc s fd xs =
      if not (is_open s fd) then (s, none) else (elim (file_at s fd).fat_fd [
        | some ffd ↦ let (fat, r) = ops.fat_write s.fat ffd xs in (record s { fat = fat }, r)
        | none ↦ elim (file_of s fd) [
          | none ↦ (s, none)
          | some node ↦ write_at kmalloc s fd node xs
        ]
      ])

  unfoldable pub vfs_readdir : Vfs F → ℕ → Vfs F × Option VfsDirent
  vfs_readdir s fd = if not (is_open s fd) then (s, none) else (elim (file_at s fd).fat_fd [
    | some ffd ↦
        let (fat, r) = ops.fat_readdir s.fat ffd in
        elim r [
          | none ↦ (record s { fat = fat }, none)
          | some name ↦ (
            record s { fat = fat },
            some (record { name = take (vfs_name_max - 1) name; inode = 0 }),
          )
        ]
    | none ↦ elim (ramfs_get_inode s.inode_table (file_at s fd).inode) [
      | none ↦ (s, none)
      | some node ↦ read_entry s fd node
    ]
  ])
