-- ===== src/Fs/Bcache/Tests.antt =====
-- Runs of the buffer cache over two concrete disks, one of which refuses every write.
use plant_os.Base.{
  ℕ, zero, suc, ◌<◌, ◌≡◌, ◌≢◌, refl, Bool, true, false, List, [], ◌∷◌, find_index, ◌==◌,
  if◌then◌else◌, arith,
}
use mathlib.Core.Bool.{false≢true}
use plant_os.Fs.Bcache.{
  Entry, Cache, Disk, blank, entry, bcache_init, lru_loop, lru_slot, evict_slot, bcache_evict,
  bcache_read, bcache_write, bcache_sync,
}
use plant_os.Fs.Bcache.Content.{Unique, content}
use plant_os.Fs.Bcache.Evict.{IsCoherent}
use plant_os.Fs.Bcache.Read.{IsRead, bcache_read-IsRead}
use plant_os.Fs.Bcache.Write.{IsWritten, bcache_write-IsWritten}
use plant_os.Fs.Bcache.Sync.{IsDurable, bcache_sync-IsDurable, blank-IsCoherent, content-blank}
use plant_os.Fs.Bcache.History.{
  Op, read, write, sync, invalidate, run, spec_run, Shows, run_refines,
}

abbrev put : (ℕ → List ℕ) → ℕ → List ℕ → ℕ → List ℕ
put s lba b l = if l == lba then b else s l

put_self : (s : ℕ → List ℕ) (lba : ℕ) (b : List ℕ) → put s lba b lba ≡ b
put_self s lba b = ground arith

put_ne : (s : ℕ → List ℕ) (lba : ℕ) (b : List ℕ) (l : ℕ) → l ≢ lba → put s lba b l ≡ s l
put_ne s lba b l ne = ground arith

no_write {ℓ} : {A : Type ℓ} → ◌≡◌ {A = Bool} false true → A
no_write e = absurd (false≢true e)

-- A disk in memory.
abbrev ram : Disk
ram = record {
  State = ℕ → List ℕ;
  read_sectors = λ s lba. (true, s lba, s);
  write_sectors = λ s lba b. (true, put s lba b);
  sector = λ s lba. s lba;
  read_ok = λ s lba ok. refl;
  read_keeps = λ s lba l. refl;
  write_ok = λ s lba b ok. put_self s lba b;
  write_keeps = put_ne;
}

-- The same disk, write-protected.
abbrev rom : Disk
rom = record {
  State = ℕ → List ℕ;
  read_sectors = λ s lba. (true, s lba, s);
  write_sectors = λ s lba b. (false, s);
  sector = λ s lba. s lba;
  read_ok = λ s lba ok. refl;
  read_keeps = λ s lba l. refl;
  write_ok = λ s lba b ok. no_write ok;
  write_keeps = λ s lba b l ne. refl;
}

abbrev platter : ℕ → List ℕ
platter l = l ∷ 7 ∷ []

abbrev script : List Op
script = read 3 ∷ write 3 (9 ∷ []) ∷ read 3 ∷ sync ∷ read 4 ∷ invalidate ∷ read 3 ∷ []

init-IsCoherent : IsCoherent ram bcache_init.entries platter
unfolding bcache_init
init-IsCoherent = blank-IsCoherent ram platter

init-Shows : Shows ram bcache_init platter platter
unfolding bcache_init
init-Shows = record { coherent = blank-IsCoherent ram platter; bytes = content-blank ram platter }

run_refines_example : run ram bcache_init platter script ≡ spec_run platter script
run_refines_example =
    run_refines ram script bcache_init platter platter
      (record { reads = λ s lba. refl; writes = λ s lba b. refl }) init-Shows

bcache_read-IsRead_example :
    IsRead ram bcache_init.entries platter 3 (bcache_read ram bcache_init platter 3)
bcache_read-IsRead_example =
    bcache_read-IsRead ram bcache_init platter 3 init-IsCoherent (λ lba b. refl)

bcache_write-IsWritten_example :
    IsWritten ram bcache_init.entries platter 3
      (9 ∷ [])
      (bcache_write ram bcache_init platter 3 (9 ∷ []))
bcache_write-IsWritten_example =
    bcache_write-IsWritten ram bcache_init platter 3 (9 ∷ []) init-IsCoherent (λ lba b. refl)

-- The cache after a write: one dirty entry.
abbrev dirtied : Cache × (ℕ → List ℕ)
dirtied = bcache_write ram bcache_init platter 3 (9 ∷ [])

dirtied-IsCoherent : IsCoherent ram dirtied.0.entries dirtied.1
dirtied-IsCoherent =
    (bcache_write-IsWritten ram bcache_init platter 3 (9 ∷ []) init-IsCoherent
      (λ lba b. refl)).coherent

bcache_sync-IsDurable_example :
    IsDurable ram dirtied.0.entries dirtied.1 (bcache_sync ram dirtied.0 dirtied.1)
bcache_sync-IsDurable_example = bcache_sync-IsDurable ram dirtied.0 dirtied.1 dirtied-IsCoherent

-- A table of two slots, both in use; the second is the older.
abbrev newer : Entry
newer = record { lba = 5; bytes = 5 ∷ []; valid = true; dirty = false; access_tick = 9 }

abbrev older : Entry
older = record { lba = 6; bytes = 1 ∷ []; valid = true; dirty = true; access_tick = 4 }

abbrev full : List Entry
full = newer ∷ older ∷ []

full-Unique : Unique full
unfolding entry
full-Unique zero zero p q v w e = refl
full-Unique zero (suc zero) p q v w e = absurd (omega arith)
full-Unique zero (suc (suc j)) p q v w e = absurd (omega arith)
full-Unique (suc zero) zero p q v w e = absurd (omega arith)
full-Unique (suc zero) (suc zero) p q v w e = refl
full-Unique (suc zero) (suc (suc j)) p q v w e = absurd (omega arith)
full-Unique (suc (suc i)) j p q v w e = absurd (omega arith)

full_valid : (j : ℕ) → j < 2 → (entry full j).valid ≡ true
unfolding entry
full_valid zero p = refl
full_valid (suc zero) p = refl
full_valid (suc (suc j)) p = absurd (omega arith)

lost_write :
    content rom (bcache_evict rom full platter).1 (bcache_evict rom full platter).2 6 ≡ 6 ∷ 7 ∷ []
unfolding bcache_evict find_index lru_slot lru_loop evict_slot entry content blank
lost_write = refl
