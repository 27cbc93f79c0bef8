-- ===== src/Fs/Vfs/Tests.antt =====
-- Runs of fs/vfs.c on one open file, with a FAT driver that has no volume.
use plant_os.Base.{
  ℕ, ◌≡◌, refl, ◌⊎◌, true, false, Option, none, some, List, [], ◌∷◌, length, replicate,
  length-replicate, arith,
}
use mathlib.Core.Option.{some-injective}
use mathlib.Core.Path.{sym, ap, ◌∙◌}
use plant_os.Fs.Ramfs.{no_inode}
use plant_os.Fs.Vfs.{no_file, Fat, Vfs}
use plant_os.Fs.Vfs.Data.{vfs_read, vfs_write, vfs_lseek}
use plant_os.Fs.Vfs.Content.{GivesBlocks, NoRoom}
use plant_os.Fs.Vfs.Write.{IsRamFile, the_file, IsWritten, vfs_write-IsWritten}
use plant_os.Fs.Vfs.ReadBack.{vfs_read-vfs_write}

abbrev give_block : ℕ → Option (List ℕ)
give_block n = some (replicate n 7)

give_block-GivesBlocks : GivesBlocks give_block
give_block-GivesBlocks n block e = ap length (sym (some-injective _ _ e)) ∙ length-replicate n 7

-- No volume is mounted: every call fails.
abbrev no_volume : Fat ℕ
no_volume = record {
  fat_open = λ s path flags. (s, none);
  fat_close = λ s fd. s;
  fat_read = λ s fd n. (s, none);
  fat_write = λ s fd xs. (s, none);
  fat_stat = λ s path. (s, none);
  fat_mkdir = λ s path. (s, none);
  fat_unlink = λ s path. (s, none);
  fat_readdir = λ s fd. (s, none);
  fat_unmount = λ s. s;
}

-- The file has the bytes 1 2, and the descriptor is behind the first.
abbrev one_file : Vfs ℕ
one_file = record {
  fd_table = record no_file { used = true; refcount = 1; offset = 1 } ∷ [];
  inode_table =
      record no_inode {
        type = 1;
        size = 2;
        bytes = 1 ∷ 2 ∷ [];
        capacity = 2;
        used = true;
        mode = 420;
      }
      ∷ [];
  pipes = [];
  fat_mpoint = [];
  fat_mounted = false;
  fat = 0;
}

one_file-IsRamFile : IsRamFile one_file 0
one_file-IsRamFile = record {
  opened = refl;
  no_fat = refl;
  no_pipe = refl;
  used = refl;
  typed = refl;
  file = record { capacity = refl; sized = omega arith };
}

vfs_write-IsWritten_example :
    IsWritten give_block one_file 0
      (5 ∷ 6 ∷ 7 ∷ [])
      (vfs_write no_volume give_block one_file 0 (5 ∷ 6 ∷ 7 ∷ []))
vfs_write-IsWritten_example =
    vfs_write-IsWritten one_file 0 one_file-IsRamFile (5 ∷ 6 ∷ 7 ∷ []) (omega arith) no_volume
      give_block give_block-GivesBlocks

vfs_read-vfs_write_example :
    (NoRoom give_block (the_file one_file 0) 4
      × (vfs_write no_volume give_block one_file 0 (5 ∷ 6 ∷ 7 ∷ []) ≡ (one_file, none)))
    ⊎ ((s1 : Vfs ℕ) × (s2 : Vfs ℕ) × (vfs_write no_volume give_block one_file 0 (5 ∷ 6 ∷ 7 ∷ [])
          ≡ (s1, some 3))
        × (vfs_lseek s1 0 1 0 ≡ some (s2, 1))
        × ((vfs_read no_volume s2 0 3).1 ≡ some (5 ∷ 6 ∷ 7 ∷ [])))
vfs_read-vfs_write_example =
    vfs_read-vfs_write no_volume give_block one_file 0 (5 ∷ 6 ∷ 7 ∷ []) give_block-GivesBlocks
      one_file-IsRamFile (omega arith)
