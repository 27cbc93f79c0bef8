-- ===== src/Fs/Vfs/Names.antt =====
-- The calls of fs/vfs.c that take a path, and those that make, share and close descriptors.
use plant_os.Base.{
  ℕ, ◌+◌, ◌-◌, ◌%◌, ◌^◌, Bool, true, false, ◌&&◌, ◌||◌, Option, none, some, List, length, get_or,
  set, ltb, ◌==◌, if◌then◌else◌,
}
use plant_os.Fs.Pipe.{empty_pipe, drop_end}
use plant_os.Fs.Ramfs.{
  vfs_file, vfs_dir, ramfs_get_inode, ramfs_resolve_path, Run, overrun, returns,
}
use plant_os.Fs.Ramfs.Calls.{ramfs_create_file, ramfs_create_dir, ramfs_unlink}
use plant_os.Fs.Vfs.{
  OpenFile, VfsStat, Fat, Vfs, file_at, is_open, with_fd, with_inode, vfs_alloc_fd, fat_subpath,
  vfs_check_perm, creates, truncates,
}

module _ {F : Type 0} (ops : Fat F) where
  -- `vfs_open` of a path under the mount point.
  unfoldable pub open_fat : Vfs F → List ℕ → ℕ → Vfs F × Option ℕ
  open_fat s fpath flags =
      let (fat, r) = ops.fat_open s.fat fpath flags in
      elim r [
        | none ↦ (record s { fat = fat }, none)
        | some ffd ↦ elim (vfs_alloc_fd (record s { fat = fat })) [
          | none ↦ (record s { fat = ops.fat_close fat ffd }, none)
          | some (fd, s') ↦ (with_fd s' fd (record (file_at s' fd) { fat_fd = some ffd }), some fd)
        ]
      ]

module _ {F : Type 0} where
  -- The inode to open: there and allowed, or made.
  unfoldable pub open_inode :
      (ℕ → Option (List ℕ)) → Option (ℕ × ℕ) → Vfs F → List ℕ → ℕ → Run (Vfs F × Option ℕ)
  open_inode kmalloc user s path flags = elim (ramfs_resolve_path s.inode_table path) [
    | none ↦
        if creates flags
        then (elim (ramfs_create_file kmalloc user s.inode_table path) [
          | overrun ↦ overrun
          | returns (t, r) ↦ returns (record s { inode_table = t }, r)
        ])
        else returns (s, none)
    | some ino ↦ elim (ramfs_get_inode s.inode_table ino) [
      | none ↦ returns (s, some ino)
      | some node ↦
          if vfs_check_perm user node (if creates flags || truncates flags then 6 else 4)
          then returns (s, some ino)
          else returns (s, none)
    ]
  ]

  unfoldable pub truncate : Vfs F → ℕ → ℕ → Vfs F
  truncate s ino flags =
      if truncates flags
      then (elim (ramfs_get_inode s.inode_table ino) [
        | none ↦ s
        | some node ↦
            if node.type == vfs_file then with_inode s ino (record node { size = 0 }) else s
      ])
      else s

  -- A descriptor for the inode.
  unfoldable pub open_fd : Vfs F → ℕ → ℕ → Vfs F × Option ℕ
  open_fd s ino flags = elim (vfs_alloc_fd s) [
    | none ↦ (s, none)
    | some (fd, s') ↦ (
      truncate (with_fd s' fd (record (file_at s' fd) { inode = ino; offset = 0; dir_idx = 0 })) ino
          flags,
      some fd,
    )
  ]

  unfoldable pub open_ramfs :
      (ℕ → Option (List ℕ)) → Option (ℕ × ℕ) → Vfs F → List ℕ → ℕ → Run (Vfs F × Option ℕ)
  open_ramfs kmalloc user s path flags = elim (open_inode kmalloc user s path flags) [
    | overrun ↦ overrun
    | returns (s', none) ↦ returns (s', none)
    | returns (s', some ino) ↦ returns (open_fd s' ino flags)
  ]

  unfoldable pub vfs_fd_addref : Vfs F → ℕ → Vfs F
  vfs_fd_addref s fd =
      let f = file_at s fd in
      if is_open s fd then with_fd s fd (record f { refcount = (f.refcount + 1) % 2 ^ 32 }) else s

module _ {F : Type 0} (ops : Fat F) (kmalloc : ℕ → Option (List ℕ)) (user : Option (ℕ × ℕ)) where
  unfoldable pub vfs_open : Vfs F → List ℕ → ℕ → Run (Vfs F × Option ℕ)
  vfs_open s path flags = elim (fat_subpath s path) [
    | some fpath ↦ returns (open_fat ops s fpath flags)
    | none ↦ open_ramfs kmalloc user s path flags
  ]

  unfoldable pub vfs_mkdir : Vfs F → List ℕ → Run (Vfs F × Option ℕ)
  vfs_mkdir s path = elim (fat_subpath s path) [
    | some fpath ↦ let (fat, r) = ops.fat_mkdir s.fat fpath in returns (record s { fat = fat }, r)
    | none ↦ elim (ramfs_create_dir kmalloc user s.inode_table path) [
      | overrun ↦ overrun
      | returns (t, r) ↦ returns (record s { inode_table = t }, r)
    ]
  ]

  -- Whether the user may write the file at the path, if there is one.
  unfoldable pub may_unlink : Vfs F → List ℕ → Bool
  may_unlink s path = elim (ramfs_resolve_path s.inode_table path) [
    | none ↦ true
    | some ino ↦ elim (ramfs_get_inode s.inode_table ino) [
      | none ↦ true
      | some node ↦ vfs_check_perm user node 2
    ]
  ]

  unfoldable pub unlink_ramfs : Vfs F → List ℕ → Run (Vfs F × Option ℕ)
  unlink_ramfs s path =
      if may_unlink s path
      then (elim (ramfs_unlink s.inode_table path) [
        | overrun ↦ overrun
        | returns none ↦ returns (s, none)
        | returns (some t) ↦ returns (record s { inode_table = t }, some 0)
      ])
      else returns (s, none)

  unfoldable pub vfs_unlink : Vfs F → List ℕ → Run (Vfs F × Option ℕ)
  vfs_unlink s path = elim (fat_subpath s path) [
    | some fpath ↦ let (fat, r) = ops.fat_unlink s.fat fpath in returns (record s { fat = fat }, r)
    | none ↦ unlink_ramfs s path
  ]

module _ {F : Type 0} (ops : Fat F) where
  unfoldable pub stat_ramfs : Vfs F → List ℕ → Option VfsStat
  stat_ramfs s path = elim (ramfs_resolve_path s.inode_table path) [
    | none ↦ none
    | some ino ↦ elim (ramfs_get_inode s.inode_table ino) [
      | none ↦ none
      | some n ↦ some (record {
        type = n.type;
        size = n.size;
        inode = ino;
        uid = n.uid;
        gid = n.gid;
        mode = n.mode;
      })
    ]
  ]

  unfoldable pub vfs_stat : Vfs F → List ℕ → Vfs F × Option VfsStat
  vfs_stat s path = elim (fat_subpath s path) [
    | none ↦ (s, stat_ramfs s path)
    | some fpath ↦
        let (fat, r) = ops.fat_stat s.fat fpath in
        elim r [
          | none ↦ (record s { fat = fat }, none)
          | some (size, is_dir) ↦ (
            record s { fat = fat },
            some (record {
              type = if is_dir then vfs_dir else vfs_file;
              size = size;
              inode = 0;
              uid = 0;
              gid = 0;
              mode = if is_dir then 493 else 420;
            }),
          )
        ]
  ]

  -- The driver's file of a descriptor is closed, if it has one.
  unfoldable pub release_fat : Vfs F → OpenFile → Vfs F
  release_fat s f = elim f.fat_fd [
    | none ↦ s
    | some ffd ↦ record s { fat = ops.fat_close s.fat ffd }
  ]

  -- `none` is the result -1.
  unfoldable pub vfs_close : Vfs F → ℕ → Option (Vfs F)
  vfs_close s fd =
      let f = file_at s fd in
      let closed = record f { fat_fd = none; refcount = 0; used = false } in
      if is_open s fd
      then some (
          if ltb 1 f.refcount
          then with_fd s fd (record f { refcount = f.refcount - 1 })
          else with_fd (release_fat s f) fd closed)
      else none

  -- The end of a pipe of a descriptor is closed, if it has one.
  unfoldable pub release_pipe : Vfs F → OpenFile → Vfs F × OpenFile
  release_pipe s f = elim f.pipe [
    | none ↦ (s, f)
    | some p ↦ (
      record s { pipes = set s.pipes p (drop_end (get_or s.pipes p empty_pipe) f.pipe_mode) },
      record f { pipe = none; pipe_mode = 0 },
    )
  ]

  unfoldable pub vfs_close_fd : Vfs F → ℕ → Option (Vfs F)
  vfs_close_fd s fd =
      let f = file_at s fd in
      let (s', f') = release_pipe s f in
      let closed = record f' { fat_fd = none; refcount = 0; used = false } in
      if is_open s fd
      then some (
          if ltb 1 f.refcount
          then with_fd s fd (record f { refcount = f.refcount - 1 })
          else with_fd (release_fat s' f') fd closed)
      else none

  unfoldable pub close_if_open : Vfs F → ℕ → Vfs F
  close_if_open s fd = elim (vfs_close s fd) [ none ↦ s | some s' ↦ s' ]

  -- The stores to the two entries, in their order.
  unfoldable pub vfs_dup2 : Vfs F → ℕ → ℕ → Option (Vfs F)
  vfs_dup2 s old new =
      let s1 = close_if_open s new in
      let s2 = with_fd s1 new (record (file_at s1 old) { refcount = 1 }) in
      let shared = record (file_at s2 old) {
        refcount = ((file_at s2 old).refcount + 1) % 2 ^ 32;
      } in
      if is_open s old && ltb new (length s.fd_table) then some (with_fd s2 old shared) else none
