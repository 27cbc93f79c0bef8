-- ===== src/Fs/Bcache/Evict.antt =====
-- `bcache_evict`: the slot that it frees, and what becomes of the sector that was there.
use plant_os.Base.{
  ℕ, zero, suc, ◌+◌, ◌-◌, ◌<◌, ◌≤◌, ◌≡◌, ◌≢◌, refl, sym, ◌∙◌, inl, inr, Bool, true, false, not,
  List, length, length-set, set, find_index-cases, ltb, ℕ_discrete, Bool-cases, arith,
}
use plant_os.Fs.Bcache.{
  Entry, Disk, blank, entry, hit, bcache_size, lru_loop, lru_slot, evict_slot, bcache_evict,
}
use plant_os.Fs.Bcache.Content.{Unique, Holds, cached, absent, entry-set, entry-eq}

-- The scan returns a slot in range whose tick no other slot of the range undercuts.
lru_loop-least :
    (es : List Entry) (k i lru : ℕ)
    → lru < i
    → ((j : ℕ) → j < i → (entry es lru).access_tick ≤ (entry es j).access_tick)
    → (lru_loop es k i lru < i + k)
      × ((j : ℕ)
          → j < i + k
          → (entry es (lru_loop es k i lru)).access_tick ≤ (entry es j).access_tick)
unfolding lru_loop
lru_loop-least es zero i lru lt h = (omega arith, λ j p. h j (omega arith))
lru_loop-least es (suc k) i lru lt h = elim (Bool-cases test) [
  | inl e ↦ rw e (
      let (a, b) = lru_loop-least es k (i + 1) i (omega arith) (λ j p. ground (arith, h j)) in
      (omega arith, λ j p. b j (omega arith)))
  | inr e ↦ rw e (
      let (a, b) = lru_loop-least es k (i + 1) lru (omega arith) (λ j p. ground (arith, h j)) in
      (omega arith, λ j p. b j (omega arith)))
]
  where
    test : Bool
    test = ltb (entry es i).access_tick (entry es lru).access_tick

-- The victim of a full cache is a slot with the least tick.
pub lru_slot-least :
    (es : List Entry)
    → 0 < length es
    → (lru_slot es < length es)
      × ((j : ℕ) → j < length es → (entry es (lru_slot es)).access_tick ≤ (entry es j).access_tick)
unfolding lru_slot
lru_slot-least es h =
    let (a, b) = lru_loop-least es (length es - 1) 1 0 (omega arith) (λ j p. ground arith) in
    (omega arith, λ j p. b j (omega arith))

-- Emptying slot `i`, whatever else is written to its entry.
module _ (es : List Entry) (i : ℕ) (e : Entry) (lt : i < length es) (off : e.valid ≡ false) where
  pub drop-Unique : Unique es → Unique (set es i e)
  drop-Unique u j k lj lk vj vk ej =
      ground (arith, length-set es i e, entry-set es i j e lt, entry-set es i k e lt, u j k)

  drop-misses :
      (l : ℕ)
      → ((j : ℕ) → j < length es → hit l (entry es j) ≡ false)
      → (j : ℕ) → j < length (set es i e)
      → hit l (entry (set es i e) j) ≡ false
  drop-misses l n j lj = ground (arith, length-set es i e, entry-set es i j e lt, n j)

  -- No client sees it, if the disk has the bytes of the slot and is otherwise unchanged.
  drop-Holds :
      (disk : Disk) (s s' : disk.State) (l : ℕ) {b : List ℕ}
      → Unique es
      → (entry es i).valid ≡ true
      → disk.sector s' (entry es i).lba ≡ (entry es i).bytes
      → ((l : ℕ) → l ≢ (entry es i).lba → disk.sector s' l ≡ disk.sector s l)
      → Holds disk es s l b
      → Holds disk (set es i e) s' l b
  drop-Holds disk s s' l u v same rest (cached j lj h eb) = elim (ℕ_discrete i j) [
    | yes p ↦
        absent (λ k lk. ground (arith, length-set es i e, entry-set es i k e lt, u i k))
          (ground (arith, same))
    | no p ↦
        cached j (ground (arith, length-set es i e)) (ground (arith, entry-set es i j e lt))
          (ground (arith, entry-set es i j e lt))
  ]
  drop-Holds disk s s' l u v same rest (absent n eb) =
      absent (λ j lj. drop-misses l n j lj) (rest l (λ q. ground (arith, n i)) ∙ eb)

module _ (disk : Disk) where
  open disk use {State, sector, write_sectors}

  -- What holds of the cache beside its disk: the table has its length, no sector is cached
  -- twice, and an entry that is not dirty agrees with the disk.
  pub record IsCoherent (es : List Entry) (s : State) : Type 0 where
    pub sized : length es ≡ bcache_size
    pub unique : Unique es
    pub clean :
        (i : ℕ)
        → i < length es
        → (entry es i).valid ≡ true
        → (entry es i).dirty ≡ false
        → (entry es i).bytes ≡ sector s (entry es i).lba

  -- A disk that takes every write.
  abbrev pub Writable : State → Type 0
  Writable s = (lba : ℕ) (b : List ℕ) → (write_sectors s lba b).0 ≡ true

  -- An eviction leaves a free slot, a coherent cache, and the same bytes in every sector.
  pub record IsEvicted (es : List Entry) (s : State) (out : ℕ × List Entry × State) : Type 0 where
    pub in_range : out.0 < bcache_size
    pub freed : (entry out.1 out.0).valid ≡ false
    pub coherent : IsCoherent out.1 out.2
    pub kept : (l : ℕ) {b : List ℕ} → Holds disk es s l b → Holds disk out.1 out.2 l b
    pub misses :
        (l : ℕ)
        → ((j : ℕ) → j < length es → hit l (entry es j) ≡ false)
        → (j : ℕ) → j < length out.1
        → hit l (entry out.1 j) ≡ false

  module _ (es : List Entry) (i : ℕ) (s : State) (c : IsCoherent es s) (lt : i < length es)
      (v : (entry es i).valid ≡ true) where
    drop-IsEvicted :
        (e : Entry) (s' : State)
        → e.valid ≡ false
        → sector s' (entry es i).lba ≡ (entry es i).bytes
        → ((l : ℕ) → l ≢ (entry es i).lba → sector s' l ≡ sector s l)
        → IsEvicted es s (i, set es i e, s')
    drop-IsEvicted e s' off same rest = record {
      in_range = omega (arith, c.sized);
      freed = ground (arith, entry-set es i i e lt);
      coherent = record {
        sized = length-set es i e ∙ c.sized;
        unique = drop-Unique es i e lt off c.unique;
        clean = λ j lj vj dj. ground (
          arith,
          length-set es i e,
          entry-set es i j e lt,
          c.unique i j lt,
          c.clean j,
          rest (entry es j).lba,
        );
      };
      kept = λ l h. drop-Holds es i e lt off disk s s' l c.unique v same rest h;
      misses = drop-misses es i e lt off;
    }

    evict_slot-IsEvicted :
        Writable s → IsEvicted es s (i, (evict_slot disk es s i).0, (evict_slot disk es s i).1)
    unfolding evict_slot
    evict_slot-IsEvicted w = elim (Bool-cases (entry es i).dirty) [
      | inl d ↦ rw d (
          drop-IsEvicted _ _ refl
            (disk.write_ok s (entry es i).lba (entry es i).bytes
              (w (entry es i).lba (entry es i).bytes))
            (λ l. disk.write_keeps s (entry es i).lba (entry es i).bytes l))
      | inr d ↦ rw d (drop-IsEvicted _ s refl (sym (c.clean i lt v d)) (λ l ne. refl))
    ]

  -- With a disk that takes every write, an eviction changes no sector for a client.
  pub bcache_evict-IsEvicted :
      (es : List Entry) (s : State)
      → IsCoherent es s
      → Writable s
      → IsEvicted es s (bcache_evict disk es s)
  unfolding bcache_evict
  bcache_evict-IsEvicted es s c w = elim (find_index-cases (λ e. not e.valid) blank es) [
    | inl (e, n) ↦
        let (lt, _) = lru_slot-least es (omega (arith, c.sized)) in
        rw (e, bcache_evict)
          (evict_slot-IsEvicted es (lru_slot es) s c lt
            (ground (arith, entry-eq es (lru_slot es), n (lru_slot es) lt)) w)
    | inr (i, e, f) ↦
        rw (e, bcache_evict)
          (record {
            in_range = omega (arith, f.in_range, c.sized);
            freed = ground (arith, entry-eq es i, f.passes);
            coherent = c;
            kept = λ l h. h;
            misses = λ l n. n;
          })
  ]
