-- ===== src/Fs/Bcache.antt =====
-- fs/bcache.c: the write-back sector cache between fat.c and the ATA driver. A pointer into
-- `cache[]` is the index of its slot. The driver (drivers/ata.c, port I/O) is the parameter `disk`.
pub mod Content
pub mod Evict
pub mod Read
pub mod Write
pub mod Sync
pub mod History
pub mod Lru
mod Tests
use plant_os.Base.{
  ℕ, zero, suc, ◌+◌, ◌-◌, ◌%◌, ◌^◌, ◌≡◌, ◌≢◌, Bool, true, false, ◌&&◌, not, Option, none, some,
  List, length, get_or, set, replicate, find_index, ltb, ◌==◌, if◌then◌else◌,
}

-- `struct bcache_entry`
pub record Entry : Type 0 where
  pub lba : ℕ
  pub bytes : List ℕ
  pub valid : Bool
  pub dirty : Bool
  pub access_tick : ℕ

-- `cache[]`, `tick_counter`, `hits` and `misses`
pub record Cache : Type 0 where
  pub entries : List Entry
  pub tick_counter : ℕ
  pub hits : ℕ
  pub misses : ℕ

abbrev pub bcache_size : ℕ
bcache_size = 64

-- `uint32_t` increment
abbrev pub inc32 : ℕ → ℕ
inc32 n = (n + 1) % 2 ^ 32

-- What `memset` to 0 makes of a slot.
pub blank : Entry
blank = record { lba = 0; bytes = replicate 512 0; valid = false; dirty = false; access_tick = 0 }

pub entry : List Entry → ℕ → Entry
entry es i = get_or es i blank

-- The ATA driver: `ata_read_sectors` and `ata_write_sectors` for one sector, `false` for a
-- negative result. A read fills the buffer that it is handed, also when it then fails. `sector`
-- is what the disk holds; the laws are those of a disk that reports its errors.
pub record Disk : Type 1 where
  pub State : Type 0
  pub read_sectors : State → ℕ → Bool × List ℕ × State
  pub write_sectors : State → ℕ → List ℕ → Bool × State
  pub sector : State → ℕ → List ℕ
  pub read_ok :
      (s : State) (lba : ℕ) → (read_sectors s lba).0 ≡ true → (read_sectors s lba).1 ≡ sector s lba
  pub read_keeps : (s : State) (lba l : ℕ) → sector (read_sectors s lba).2 l ≡ sector s l
  pub write_ok :
      (s : State) (lba : ℕ) (b : List ℕ)
      → (write_sectors s lba b).0 ≡ true
      → sector (write_sectors s lba b).1 lba ≡ b
  pub write_keeps :
      (s : State) (lba : ℕ) (b : List ℕ) (l : ℕ)
      → l ≢ lba
      → sector (write_sectors s lba b).1 l ≡ sector s l

pub bcache_init : Cache
bcache_init = record {
  entries = replicate bcache_size blank;
  tick_counter = 0;
  hits = 0;
  misses = 0;
}

abbrev pub hit : ℕ → Entry → Bool
hit lba e = e.valid && e.lba == lba

pub bcache_find : List Entry → ℕ → Option ℕ
bcache_find es lba = find_index (hit lba) es

-- `for (i = 1; i < BCACHE_SIZE; i++) if (cache[i].access_tick < cache[lru].access_tick) lru = i;`
-- with the rounds that are left.
lru_loop : List Entry → ℕ → ℕ → ℕ → ℕ
lru_loop es zero i lru = lru
lru_loop es (suc k) i lru =
    lru_loop es k (i + 1)
      (if ltb (entry es i).access_tick (entry es lru).access_tick then i else lru)

pub lru_slot : List Entry → ℕ
unfolding lru_loop
lru_slot es = lru_loop es (length es - 1) 1 0

-- The hit path: the tick moves on.
touch : Cache → ℕ → Cache
touch c i = record c {
  entries = set c.entries i (record (entry c.entries i) { access_tick = inc32 c.tick_counter });
  tick_counter = inc32 c.tick_counter;
  hits = inc32 c.hits;
}

pub bcache_mark_dirty : Cache → ℕ → Cache
bcache_mark_dirty c lba = elim (bcache_find c.entries lba) [
  | some i ↦ record c { entries = set c.entries i (record (entry c.entries i) { dirty = true }) }
  | none ↦ c
]

-- The last three lines of `bcache_write`, on a slot that holds `lba`.
store : Cache → ℕ → List ℕ → Cache
store c i buf = record c {
  entries = set c.entries i (record (entry c.entries i) {
    bytes = buf;
    dirty = true;
    access_tick = inc32 c.tick_counter;
  });
  tick_counter = inc32 c.tick_counter;
}

module _ (disk : Disk) where
  open disk use {State, read_sectors, write_sectors}

  -- `if (e->dirty) { ata_write_sectors(...); e->dirty = false; } e->valid = false;`, where the
  -- result of the write is not looked at.
  evict_slot : List Entry → State → ℕ → List Entry × State
  evict_slot es s i =
      if (entry es i).dirty
      then (
        set es i (record (entry es i) { dirty = false; valid = false }),
        (write_sectors s (entry es i).lba (entry es i).bytes).1,
      )
      else (set es i (record (entry es i) { valid = false }), s)

  -- The slot, and what the eviction leaves.
  pub bcache_evict : List Entry → State → ℕ × List Entry × State
  bcache_evict es s = elim (find_index (λ e. not e.valid) es) [
    | some i ↦ (i, es, s)
    | none ↦ let (es', s') = evict_slot es s (lru_slot es) in (lru_slot es, es', s')
  ]

  -- The miss path, after the slot is chosen. On a failed read the slot stays as it was but for
  -- the bytes of its buffer.
  load : Cache → ℕ → ℕ × List Entry × State → Option ℕ × Cache × State
  load c lba (i, es, s) =
      let (done, buf, s') = read_sectors s lba in
      if done
      then (
        some i,
        record c {
          entries = set es i (record {
            lba = lba;
            bytes = buf;
            valid = true;
            dirty = false;
            access_tick = inc32 c.tick_counter;
          });
          tick_counter = inc32 c.tick_counter;
          misses = inc32 c.misses;
        },
        s',
      )
      else (
        none,
        record c {
          entries = set es i (record (entry es i) { bytes = buf });
          misses = inc32 c.misses;
        },
        s',
      )

  -- `Option` is the pointer to the cached bytes: the slot, or NULL.
  pub bcache_read : Cache → State → ℕ → Option ℕ × Cache × State
  bcache_read c s lba = elim (bcache_find c.entries lba) [
    | some i ↦ (some i, touch c i, s)
    | none ↦ load c lba (bcache_evict c.entries s)
  ]

  -- What a write miss does to the slot that the eviction gives; it does not touch `dirty`.
  claim : Cache → ℕ → ℕ × List Entry × State → ℕ × Cache × State
  claim c lba (i, es, s) = (
    i,
    record c {
      entries =
          set es i
            (record (entry es i) { lba = lba; valid = true; access_tick = inc32 c.tick_counter });
      tick_counter = inc32 c.tick_counter;
    },
    s,
  )

  -- `buf` holds the SECTOR_SIZE bytes of `data`. The result is always 0.
  pub bcache_write : Cache → State → ℕ → List ℕ → Cache × State
  bcache_write c s lba buf = elim (bcache_find c.entries lba) [
    | some i ↦ (store c i buf, s)
    | none ↦ let (i, c', s') = claim c lba (bcache_evict c.entries s) in (store c' i buf, s')
  ]

  -- The rounds of the loop that are left, from slot `i` on. `none` is the result -1.
  sync_loop : ℕ → ℕ → ℕ → List Entry → State → Option ℕ × List Entry × State
  sync_loop zero i flushed es s = (some flushed, es, s)
  sync_loop (suc k) i flushed es s =
      let (done, s') = write_sectors s (entry es i).lba (entry es i).bytes in
      let flush =
        sync_loop k (i + 1) (flushed + 1) (set es i (record (entry es i) { dirty = false })) s' in
      let skip = sync_loop k (i + 1) flushed es s in
      if (entry es i).valid && (entry es i).dirty
      then (if done then flush else (none, es, s'))
      else skip

  pub bcache_sync : Cache → State → Option ℕ × Cache × State
  bcache_sync c s =
      let (r, es, s') = sync_loop (length c.entries) 0 0 c.entries s in
      (r, record c { entries = es }, s')

  pub bcache_invalidate : Cache → State → Cache × State
  bcache_invalidate c s =
      let (r, c', s') = bcache_sync c s in (record c' { entries = replicate bcache_size blank }, s')
