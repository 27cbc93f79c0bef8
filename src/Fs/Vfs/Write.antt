-- ===== src/Fs/Vfs/Write.antt =====
-- `vfs_write` of fs/vfs.c on a file of ramfs.
use plant_os.Base.{
  ℕ, ◌+◌, ◌%◌, ◌^◌, ◌<◌, ◌≡◌, ◌≢◌, refl, sym, ap, ap₂, ◌∙◌, inl, inr, true, false, ◌&&◌, Option,
  none, some, List, length, get_or, set, length-set, get_or-set, ltb, ◌==◌, ==_iff, &&-eq-true,
  ltb→lt, arith,
}
use mathlib.Core.Path.{subst}
use plant_os.Fs.Ramfs.{VfsInode, no_inode, inode_at, vfs_file}
use plant_os.Fs.Ramfs.Entries.{used_in_range, get_inode-used}
use plant_os.Fs.Vfs.{Fat, Vfs, no_file, file_at, is_open, with_fd, with_inode}
use plant_os.Fs.Vfs.Data.{file_put, write_at, file_of, vfs_write}
use plant_os.Fs.Vfs.Content.{
  IsFile, GivesBlocks, NoRoom, HasGrown, file_grow-HasGrown, HasPut, file_put-HasPut,
}

module _ {A : Type 0} (xs : List A) (i : ℕ) (v d : A) (in_range : i < length xs) where
  pub set-this : get_or (set xs i v) i d ≡ v
  set-this = let e : (i == i) ≡ true = ground arith in get_or-set xs i i v d in_range ∙ rw e refl

  pub set-other : (k : ℕ) → k ≢ i → get_or (set xs i v) k d ≡ get_or xs k d
  set-other k ne =
      let e : (i == k) ≡ false = ground (arith, ne) in get_or-set xs i k v d in_range ∙ rw e refl

-- An open descriptor of a file in ramfs.
pub record IsRamFile {F : Type 0} (s : Vfs F) (fd : ℕ) : Type 0 where
  pub opened : is_open s fd ≡ true
  pub no_fat : (file_at s fd).fat_fd ≡ none
  pub no_pipe : (file_at s fd).pipe ≡ none
  pub used : (inode_at s.inode_table (file_at s fd).inode).used ≡ true
  pub typed : (inode_at s.inode_table (file_at s fd).inode).type ≡ vfs_file
  pub file : IsFile (inode_at s.inode_table (file_at s fd).inode)

-- The file of a descriptor.
abbrev pub the_file : {F : Type 0} → Vfs F → ℕ → VfsInode
the_file s fd = inode_at s.inode_table (file_at s fd).inode

pub file_of-RamFile :
    {F : Type 0} (s : Vfs F) (fd : ℕ) → IsRamFile s fd → file_of s fd ≡ some (the_file s fd)
unfolding file_of
file_of-RamFile s fd h =
    let typed : ((the_file s fd).type == vfs_file) ≡ true = (==_iff _ _).1 h.typed in
    rw (file_of, get_inode-used s.inode_table (file_at s fd).inode h.used, typed) refl

-- The bytes are in the file, the offset is behind them, and nothing else has changed.
pub record HasWritten {F : Type 0} (s : Vfs F) (fd : ℕ) (xs : List ℕ) (s' : Vfs F) : Type 0 where
  pub content : HasPut (the_file s fd) (file_at s fd).offset xs (the_file s' fd)
  pub descriptor :
      file_at s' fd ≡ record (file_at s fd) { offset = (file_at s fd).offset + length xs }
  pub other_files :
      (i : ℕ) → i ≢ (file_at s fd).inode → inode_at s'.inode_table i ≡ inode_at s.inode_table i
  pub other_descriptors : (k : ℕ) → k ≢ fd → file_at s' k ≡ file_at s k
  pub ram_file : IsRamFile s' fd

-- The file has to grow and there is no memory, or all bytes are written.
pub data IsWritten {F : Type 0} (kmalloc : ℕ → Option (List ℕ)) (s : Vfs F) (fd : ℕ) (xs : List ℕ)
    : Vfs F × Option ℕ → Type 0 where
  no_memory :
      NoRoom kmalloc (the_file s fd) ((file_at s fd).offset + length xs)
      → IsWritten kmalloc s fd xs (s, none)
  written : {s' : Vfs F} → HasWritten s fd xs s' → IsWritten kmalloc s fd xs (s', some (length xs))

module _ {F : Type 0} (s : Vfs F) (fd : ℕ) (h : IsRamFile s fd) (xs : List ℕ)
    (small : (file_at s fd).offset + length xs < 2 ^ 31) where
  fd_in_range : fd < length s.fd_table
  fd_in_range = ltb→lt _ _ (&&-eq-true _ _ h.opened).0

  ino_in_range : (file_at s fd).inode < length s.inode_table
  ino_in_range = used_in_range s.inode_table (file_at s fd).inode h.used

  module _ (grown : VfsInode)
      (g : HasGrown (the_file s fd) ((file_at s fd).offset + length xs) grown) where
    abbrev after : Vfs F
    after =
        with_fd (with_inode s (file_at s fd).inode (file_put grown (file_at s fd).offset xs)) fd
          (record (file_at s fd) { offset = (file_at s fd).offset + length xs })

    fd-after :
        file_at after fd ≡ record (file_at s fd) { offset = (file_at s fd).offset + length xs }
    fd-after = set-this s.fd_table fd _ no_file fd_in_range

    file-after : the_file after fd ≡ file_put grown (file_at s fd).offset xs
    file-after =
        let t = set s.inode_table (file_at s fd).inode (file_put grown (file_at s fd).offset xs) in
        ap (λ f. inode_at t f.inode) fd-after
        ∙ set-this s.inode_table (file_at s fd).inode _ no_inode ino_in_range

    after-HasWritten : HasWritten s fd xs after
    after-HasWritten =
        let n = file_put grown (file_at s fd).offset xs in
        let put = file_put-HasPut (the_file s fd) grown (file_at s fd).offset xs small g in
        record {
          content = subst (HasPut (the_file s fd) (file_at s fd).offset xs) (sym file-after) put;
          descriptor = fd-after;
          other_files = set-other s.inode_table (file_at s fd).inode n no_inode ino_in_range;
          other_descriptors = set-other s.fd_table fd _ no_file fd_in_range;
          ram_file = record {
            opened =
                ap₂ (λ n f. ltb fd n && f.used) (length-set s.fd_table fd _) fd-after ∙ h.opened;
            no_fat = ap (λ f. f.fat_fd) fd-after ∙ h.no_fat;
            no_pipe = ap (λ f. f.pipe) fd-after ∙ h.no_pipe;
            used = ap (λ n. n.used) file-after ∙ put.used ∙ h.used;
            typed = ap (λ n. n.type) file-after ∙ put.type ∙ h.typed;
            file = subst IsFile (sym file-after) put.file;
          };
        }

  -- `vfs_write` through an open descriptor of a file in ramfs, up to an end of the bytes below 2^31:
  -- it writes all bytes at the offset and changes no other file, descriptor or counted byte, or the
  -- file has to grow, `kmalloc` gives no block of twice the bytes needed and at least 256, and then it
  -- fails and changes nothing. A block that `kmalloc` gives is as long as was asked for.
  pub vfs_write-IsWritten :
      (ops : Fat F) (kmalloc : ℕ → Option (List ℕ))
      → GivesBlocks kmalloc
      → IsWritten kmalloc s fd xs (vfs_write ops kmalloc s fd xs)
  unfolding vfs_write write_at
  vfs_write-IsWritten ops kmalloc gives =
      let no_wrap : ((file_at s fd).offset + length xs) % 2 ^ 32
          ≡ (file_at s fd).offset + length xs =
        omega arith in
      elim (file_grow-HasGrown kmalloc (the_file s fd) _ gives h.file small) [
        | inl (e, lack) ↦
            rw (vfs_write, h.opened, h.no_fat, file_of-RamFile s fd h, write_at, no_wrap, e)
              (no_memory lack)
        | inr (grown, e, g) ↦
            rw
              (vfs_write, h.opened, h.no_fat, file_of-RamFile s fd h, write_at, no_wrap, e, no_wrap)
              (written (after-HasWritten grown g))
      ]
