-- ===== src/Fs/Bcache/Lru.antt =====
-- Which slot `bcache_evict` gives up, and what becomes of the bytes in it.
use plant_os.Base.{
  ℕ, ◌<◌, ◌≤◌, ◌≡◌, refl, inl, inr, true, false, not, List, length, length-set, set,
  find_index-cases, Bool-cases, arith,
}
use plant_os.Fs.Bcache.{Entry, Disk, blank, entry, lru_slot, evict_slot, bcache_evict}
use plant_os.Fs.Bcache.Content.{Unique, content, content-miss, entry-set, entry-eq}
use plant_os.Fs.Bcache.Evict.{lru_slot-least, drop-Unique}

module _ (disk : Disk) where
  open disk use {State, sector}

  drop-victim :
      (es : List Entry) (s' : State) (i : ℕ) (e : Entry)
      → Unique es
      → i < length es
      → (entry es i).valid ≡ true
      → e.valid ≡ false
      → content disk (set es i e) s' (entry es i).lba ≡ sector s' (entry es i).lba
  drop-victim es s' i e u lt v off =
      content-miss disk (set es i e) s' (entry es i).lba (drop-Unique es i e lt off u)
        (λ j lj. ground (arith, length-set es i e, entry-set es i j e lt, u i j lt))

  evict_slot-victim :
      (es : List Entry) (s : State) (i : ℕ)
      → Unique es
      → i < length es
      → (entry es i).valid ≡ true
      → let (es', s') = evict_slot disk es s i in
        content disk es' s' (entry es i).lba ≡ sector s' (entry es i).lba
  unfolding evict_slot
  evict_slot-victim es s i u lt v = elim (Bool-cases (entry es i).dirty) [
    | inl d ↦ rw d (drop-victim es _ i _ u lt v refl)
    | inr d ↦ rw d (drop-victim es s i _ u lt v refl)
  ]

  -- An eviction from a full cache leaves the sector of its victim to the disk alone, whatever the
  -- driver answered: if the write of a dirty victim failed, the bytes are gone.
  pub bcache_evict-victim :
      (es : List Entry) (s : State)
      → Unique es
      → 0 < length es
      → ((j : ℕ) → j < length es → (entry es j).valid ≡ true)
      → let (i, es', s') = bcache_evict disk es s in
        (i ≡ lru_slot es)
        × (content disk es' s' (entry es i).lba ≡ sector s' (entry es i).lba)
        × ((j : ℕ) → j < length es → (entry es i).access_tick ≤ (entry es j).access_tick)
  unfolding bcache_evict
  bcache_evict-victim es s u ne full = elim (find_index-cases (λ e. not e.valid) blank es) [
    | inr (i, e, f) ↦ cc (full i f.in_range, f.passes, entry-eq es i)
    | inl (e, n) ↦
        let (lt, least) = lru_slot-least es ne in
        rw (e, bcache_evict)
          (
            refl,
            evict_slot-victim es s (lru_slot es) u lt
                (ground (arith, n (lru_slot es) lt, entry-eq es (lru_slot es))),
            least,
          )
  ]
