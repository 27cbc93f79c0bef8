-- ===== src/Fs/Vfs/ReadBack.antt =====
-- `vfs_lseek` and `vfs_read` of fs/vfs.c on a file of ramfs after a write.
use plant_os.Base.{
  ℕ, ◌+◌, ◌-◌, ◌%◌, ◌^◌, ◌<◌, ◌≤◌, ◌≡◌, refl, sym, ap, ap₂, ◌∙◌, ◌⊎◌, inl, inr, true, false, ◌&&◌,
  Option, none, some, List, [], ◌∷◌, length, get_or, length-set, ltb, leb, Bool-cases, &&-eq-true,
  ltb→lt, arith,
}
use Prim.Native.Nat.{max}
use mathlib.Core.Path.{subst}
use plant_os.Fs.Ramfs.{VfsInode, inode_at}
use plant_os.Fs.Vfs.{Fat, Vfs, no_file, file_at, with_fd}
use plant_os.Fs.Vfs.Data.{read_at, seek_to, seek_file, vfs_read, vfs_write, vfs_lseek}
use plant_os.Fs.Vfs.Content.{IsFile, NoRoom, GivesBlocks, take-drop_bytes}
use plant_os.Fs.Vfs.Write.{
  set-this, IsRamFile, the_file, file_of-RamFile, IsWritten, no_memory, written,
  vfs_write-IsWritten,
}

-- Where the descriptor is after a seek to `off`.
abbrev sought : {F : Type 0} → Vfs F → ℕ → ℕ → Vfs F
sought s fd off = with_fd s fd (record (file_at s fd) { offset = off })

module _ {F : Type 0} (s : Vfs F) (fd : ℕ) (h : IsRamFile s fd) where
  seek-file_lem :
      (off whence : ℕ) → vfs_lseek s fd off whence ≡ seek_file s fd (the_file s fd) off whence
  unfolding vfs_lseek
  seek-file_lem off whence =
      rw (vfs_lseek, h.opened, h.no_pipe, h.no_fat, file_of-RamFile s fd h) refl

  pub vfs_lseek-set : (off : ℕ) → off < 2 ^ 31 → vfs_lseek s fd off 0 ≡ some (sought s fd off, off)
  unfolding seek_file seek_to
  vfs_lseek-set off small =
      let no_wrap : off % 2 ^ 32 ≡ off = omega arith in
      let plus : ltb off (2 ^ 31) ≡ true = ground arith in
      seek-file_lem off 0 ∙ rw (seek_file, seek_to, no_wrap, plus) refl

  fd-sought : (off : ℕ) → file_at (sought s fd off) fd ≡ record (file_at s fd) { offset = off }
  fd-sought off = set-this s.fd_table fd _ no_file (ltb→lt _ _ (&&-eq-true _ _ h.opened).0)

  sought-IsRamFile : (off : ℕ) → IsRamFile (sought s fd off) fd
  sought-IsRamFile off = record {
    opened =
        ap₂ (λ n f. ltb fd n && f.used) (length-set s.fd_table fd _) (fd-sought off) ∙ h.opened;
    no_fat = ap (λ f. f.fat_fd) (fd-sought off) ∙ h.no_fat;
    no_pipe = ap (λ f. f.pipe) (fd-sought off) ∙ h.no_pipe;
    used = ap (λ f. (inode_at s.inode_table f.inode).used) (fd-sought off) ∙ h.used;
    typed = ap (λ f. (inode_at s.inode_table f.inode).type) (fd-sought off) ∙ h.typed;
    file = subst (λ f. IsFile (inode_at s.inode_table f.inode)) (sym (fd-sought off)) h.file;
  }

  -- A read of an open file.
  pub vfs_read-file :
      (ops : Fat F) (count : ℕ) → vfs_read ops s fd count ≡ read_at s fd (the_file s fd) count
  unfolding vfs_read
  vfs_read-file ops count = rw (vfs_read, h.opened, h.no_fat, file_of-RamFile s fd h) refl

no_bytes : (xs : List ℕ) → length xs ≡ 0 → [] ≡ xs
no_bytes [] h = refl
no_bytes (x ∷ xs) h = absurd (omega (arith, h))

-- The bytes of a read: those from the offset to the end of the file, at most `count`.
pub read_at-bytes :
    {F : Type 0} (s : Vfs F) (fd : ℕ) (n : VfsInode) (xs : List ℕ)
    → (file_at s fd).offset + length xs ≤ n.size
    → IsFile n
    → ((j : ℕ) → j < length xs → get_or n.bytes ((file_at s fd).offset + j) 0 ≡ get_or xs j 0)
    → (read_at s fd n (length xs)).1 ≡ some xs
unfolding read_at
read_at-bytes s fd n xs fits file same = elim (Bool-cases (leb n.size (file_at s fd).offset)) [
  | inl e ↦ rw (read_at, e) (ap some (no_bytes xs (ground arith)))
  | inr e ↦
      let enough : ltb (n.size - (file_at s fd).offset) (length xs) ≡ false = ground arith in
      rw (read_at, e, enough)
        (ap some
          (take-drop_bytes n.bytes (file_at s fd).offset xs (omega (arith, file.sized)) same))
]

-- Bytes written by `vfs_write` through an open descriptor of a file in ramfs, up to an end below
-- 2^31, come back: a seek to where they were written, and a read of as many bytes, gives them. Or the
-- file has to grow, `kmalloc` gives no block of twice the bytes needed and at least 256, and the write
-- fails and changes nothing. A block that `kmalloc` gives is as long as was asked for.
pub vfs_read-vfs_write :
    {F : Type 0} (ops : Fat F) (kmalloc : ℕ → Option (List ℕ)) (s : Vfs F) (fd : ℕ) (xs : List ℕ)
    → GivesBlocks kmalloc
    → IsRamFile s fd
    → (file_at s fd).offset + length xs < 2 ^ 31
    → (NoRoom kmalloc (the_file s fd) ((file_at s fd).offset + length xs)
        × (vfs_write ops kmalloc s fd xs ≡ (s, none)))
      ⊎ ((s1 : Vfs F) × (s2 : Vfs F) × (vfs_write ops kmalloc s fd xs ≡ (s1, some (length xs)))
          × (vfs_lseek s1 fd (file_at s fd).offset 0 ≡ some (s2, (file_at s fd).offset))
          × ((vfs_read ops s2 fd (length xs)).1 ≡ some xs))
vfs_read-vfs_write {F = F} ops kmalloc s fd xs gives h small =
    back (vfs_write ops kmalloc s fd xs) (vfs_write-IsWritten s fd h xs small ops kmalloc gives)
  where
    back :
        (r : Vfs F × Option ℕ)
        → IsWritten kmalloc s fd xs r
        → (NoRoom kmalloc (the_file s fd) ((file_at s fd).offset + length xs) × (r ≡ (s, none)))
          ⊎ ((s1 : Vfs F) × (s2 : Vfs F) × (r ≡ (s1, some (length xs)))
              × (vfs_lseek s1 fd (file_at s fd).offset 0 ≡ some (s2, (file_at s fd).offset))
              × ((vfs_read ops s2 fd (length xs)).1 ≡ some xs))
    back r (no_memory lack) = inl (lack, refl)
    back r (written {s'} w) =
        let off = (file_at s fd).offset in
        let s2 = sought s' fd off in
        let at_fd = fd-sought s' fd w.ram_file off in
        let ram = sought-IsRamFile s' fd w.ram_file off in
        let same_off : (file_at s2 fd).offset ≡ off = ap (λ f. f.offset) at_fd in
        let same_file : the_file s2 fd ≡ the_file s' fd =
          ap (λ f. inode_at s'.inode_table f.inode) at_fd in
        let size : (the_file s2 fd).size ≡ max (the_file s fd).size (off + length xs) =
          ap (λ n. n.size) same_file ∙ w.content.size in
        let bytes : (j : ℕ)
            → j < length xs
            → get_or (the_file s2 fd).bytes ((file_at s2 fd).offset + j) 0 ≡ get_or xs j 0 =
          λ j lt.
            ap₂ (λ n i. get_or n.bytes (i + j) 0) same_file same_off ∙ w.content.new_bytes j lt in
        inr (
          s',
          s2,
          refl,
          vfs_lseek-set s' fd w.ram_file off (omega arith),
          ap (λ r. r.1) (vfs_read-file s2 fd ram ops (length xs))
              ∙ read_at-bytes s2 fd (the_file s2 fd) xs (omega (arith, size, same_off)) ram.file
                  bytes,
        )
