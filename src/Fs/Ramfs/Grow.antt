-- ===== src/Fs/Ramfs/Grow.antt =====
-- `dir_add_entry` of fs/ramfs.c: it fails, or there is one more entry.
use plant_os.Base.{
  ℕ, ◌+◌, ◌-◌, ◌*◌, ◌/◌, ◌%◌, ◌^◌, ◌≡◌, ◌≢◌, ◌<◌, refl, sym, ap, ◌∙◌, ◌⊎◌, inl, inr, Option, none,
  some, List, [], ◌∷◌, ◌++◌, set, take, ◌==◌, ltb, ltb→lt, ==_iff, arith, if◌then◌else◌, Bool-cases,
  Option-cases,
}
use Prim.Native.Nat.{max}
use plant_os.Fs.Ramfs.{
  VfsInode, inode_at, vfs_dir, vfs_name_max, dirent_size, listed, dir_grow, dir_add_entry,
}

-- The size with an entry more.
abbrev pub longer_size : VfsInode → ℕ
longer_size dir = (dir.size / dirent_size + 1) * dirent_size % 2 ^ 32

-- Why there is no room for an entry: it is no directory, or its memory is full and there is no more,
-- not as many bytes as `dir_grow` asks for.
pub data NoEntry (kmalloc : ℕ → Option (List ℕ)) (dir : VfsInode) : Type 0 where
  no_dir : dir.type ≢ vfs_dir → NoEntry kmalloc dir
  no_memory :
      dir.capacity < longer_size dir
      → kmalloc (max 512 (longer_size dir * 2 % 2 ^ 32)) ≡ none
      → NoEntry kmalloc dir

-- More room changes the capacity only.
dir_grow-cases :
    (kmalloc : ℕ → Option (List ℕ)) (dir : VfsInode) (needed : ℕ)
    → ((dir_grow kmalloc dir needed ≡ none)
        × (dir.capacity < needed)
        × (kmalloc (max 512 (needed * 2 % 2 ^ 32)) ≡ none))
      ⊎ ((room : ℕ) × (dir_grow kmalloc dir needed ≡ some (record dir { capacity = room })))
unfolding dir_grow
dir_grow-cases kmalloc dir needed = elim (Bool-cases (ltb dir.capacity needed)) [
  | inl h ↦
      let twice = needed * 2 % 2 ^ 32 in
      let new_cap = if ltb twice 512 then 512 else twice in
      elim (Option-cases (kmalloc new_cap)) [
        | inl e ↦
            let asked : new_cap ≡ max 512 twice = ground arith in
            inl (rw (h, e) refl, ltb→lt _ _ h, sym (ap kmalloc asked) ∙ e)
        | inr (block, e) ↦ inr (new_cap, rw (h, e) refl)
      ]
  | inr h ↦ inr (dir.capacity, rw h refl)
]

-- The directory with an entry more, in memory of `room` bytes.
abbrev pub longer : VfsInode → List ℕ → ℕ → ℕ → VfsInode
longer dir name child room = record dir {
  capacity = room;
  entries = listed dir ++ record { name = take (vfs_name_max - 1) name; inode = child } ∷ [];
  size = (dir.size / dirent_size + 1) * dirent_size % 2 ^ 32;
}

pub dir_add_entry-cases :
    (kmalloc : ℕ → Option (List ℕ)) (t : List VfsInode) (d : ℕ) (name : List ℕ) (child : ℕ)
    → ((dir_add_entry kmalloc t d name child ≡ none) × NoEntry kmalloc (inode_at t d))
      ⊎ ((room : ℕ) × ((inode_at t d).type ≡ vfs_dir)
          × (dir_add_entry kmalloc t d name child
              ≡ some (set t d (longer (inode_at t d) name child room))))
unfolding dir_add_entry
dir_add_entry-cases kmalloc t d name child = elim (Bool-cases ((inode_at t d).type == vfs_dir)) [
  | inr h ↦ inl (rw h refl, no_dir (λ eq. absurd (ground (arith, h, eq))))
  | inl h ↦
      let dir = inode_at t d in
      elim (dir_grow-cases kmalloc dir ((dir.size / dirent_size + 1) * dirent_size % 2 ^ 32)) [
        | inl (e, full, lack) ↦ inl (rw (h, e) refl, no_memory full lack)
        | inr (room, e) ↦ inr (room, (==_iff _ _).0 h, rw (h, e) refl)
      ]
]
