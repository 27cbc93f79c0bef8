-- ===== src/Fs/Bcache/Write.antt =====
-- `bcache_write` and `bcache_mark_dirty` against the sectors that a client sees.
use plant_os.Base.{
  ℕ, ◌<◌, ◌≡◌, refl, ◌∙◌, inl, inr, true, false, some, List, length, set, set-set_self, ◌==◌,
  if◌then◌else◌, arith,
}
use plant_os.Fs.Bcache.{
  Entry, Cache, Disk, entry, hit, bcache_find, store, claim, bcache_write, bcache_mark_dirty, inc32,
}
use plant_os.Fs.Bcache.Content.{
  content, entry-set_self, IsFree, content-set, content-hit, bcache_find-cases,
}
use plant_os.Fs.Bcache.Evict.{IsCoherent, Writable, IsEvicted, bcache_evict-IsEvicted}
use plant_os.Fs.Bcache.Read.{set-IsCoherent, hit-IsFree, evicted-IsFree, reread}

module _ (disk : Disk) where
  open disk use {State}

  -- What a client may rely on after a write of `buf` to `lba`: a coherent cache that shows `buf`
  -- under `lba`, and under every other sector what it showed before.
  pub record IsWritten (es : List Entry) (s : State) (lba : ℕ) (buf : List ℕ) (out : Cache × State)
      : Type 0 where
    pub coherent : IsCoherent disk out.0.entries out.1
    pub shows :
        (l : ℕ)
        → content disk out.0.entries out.1 l ≡ (if l == lba then buf else content disk es s l)

  -- A dirty entry for `lba` with the bytes `buf`, written to a slot that is free for it.
  put-IsWritten :
      (es₀ : List Entry) (s₀ : State) (es : List Entry) (s : State) (c : Cache) (i : ℕ) (e : Entry)
      → IsCoherent disk es s
      → ((l : ℕ) → content disk es s l ≡ content disk es₀ s₀ l)
      → IsFree es i e.lba
      → e.valid ≡ true
      → e.dirty ≡ true
      → c.entries ≡ set es i e
      → IsWritten es₀ s₀ e.lba e.bytes (c, s)
  put-IsWritten es₀ s₀ es s c i e co same free v d eq = record {
    coherent = rw eq (set-IsCoherent disk es i e s free (λ clean. cc) co);
    shows = λ l. rw eq (content-set disk es i e s l free v co.unique ∙ ground (arith, same l));
  }

  store-IsWritten :
      (c : Cache) (s : State) (i lba : ℕ) (buf : List ℕ)
      → IsCoherent disk c.entries s
      → i < length c.entries
      → hit lba (entry c.entries i) ≡ true
      → IsWritten c.entries s lba buf (store c i buf, s)
  unfolding store
  store-IsWritten c s i lba buf co lt h =
      let is : (entry c.entries i).lba ≡ lba = ground arith in
      rw (← is) (
        put-IsWritten c.entries s c.entries s _ i
          (record (entry c.entries i) {
            bytes = buf;
            dirty = true;
            access_tick = inc32 c.tick_counter;
          })
          co (λ l. refl)
          (hit-IsFree disk c.entries i (entry c.entries i).lba co.unique lt (ground arith))
          (ground arith) refl refl)

  claim-IsWritten :
      (c : Cache) (s t : State) (i lba : ℕ) (es : List Entry) (buf : List ℕ)
      → ((j : ℕ) → j < length c.entries → hit lba (entry c.entries j) ≡ false)
      → IsEvicted disk c.entries s (i, es, t)
      → IsWritten c.entries s lba buf (store (claim disk c lba (i, es, t)).1 i buf, t)
  unfolding store claim
  claim-IsWritten c s t i lba es buf n ev =
      let free = evicted-IsFree disk c.entries s lba (i, es, t) ev n in
      put-IsWritten c.entries s es t _ i
        (record {
          lba = lba;
          bytes = buf;
          valid = true;
          dirty = true;
          access_tick = inc32 (inc32 c.tick_counter);
        })
        ev.coherent (λ l. reread disk c.entries s t t i l es (λ _. refl) ev) free refl refl
        (rw (entry-set_self es i _ free.in_range, set-set_self))

  -- `bcache_write` of a coherent cache, if no write of a dirty victim can fail, puts `buf` under
  -- `lba` and changes no other sector.
  pub bcache_write-IsWritten :
      (c : Cache) (s : State) (lba : ℕ) (buf : List ℕ)
      → IsCoherent disk c.entries s
      → Writable disk s
      → IsWritten c.entries s lba buf (bcache_write disk c s lba buf)
  unfolding bcache_write claim
  bcache_write-IsWritten c s lba buf co w = elim (bcache_find-cases c.entries lba) [
    | inl (e, n) ↦
        rw (e, bcache_write)
          (claim-IsWritten c s _ _ lba _ buf n (bcache_evict-IsEvicted disk c.entries s co w))
    | inr (i, e, lt, h) ↦ rw (e, bcache_write) (store-IsWritten c s i lba buf co lt h)
  ]

  -- `bcache_mark_dirty` marks the slot of a cached sector and changes no sector for a client.
  pub bcache_mark_dirty_lem :
      (c : Cache) (s : State) (lba : ℕ)
      → IsCoherent disk c.entries s
      → IsCoherent disk (bcache_mark_dirty c lba).entries s
        × ((i : ℕ)
            → bcache_find c.entries lba ≡ some i
            → (entry (bcache_mark_dirty c lba).entries i).dirty ≡ true)
        × ((l : ℕ)
            → content disk (bcache_mark_dirty c lba).entries s l ≡ content disk c.entries s l)
  unfolding bcache_mark_dirty
  bcache_mark_dirty_lem c s lba co = elim (bcache_find-cases c.entries lba) [
    | inl (e, n) ↦ rw (e, bcache_mark_dirty) (co, λ i f. cc, λ l. refl)
    | inr (i, e, lt, h) ↦
        let free =
          hit-IsFree disk c.entries i (entry c.entries i).lba co.unique lt (ground arith) in
        rw (e, bcache_mark_dirty)
          (
            set-IsCoherent disk c.entries i _ s free (λ clean. cc) co,
            λ j f. ground (
              arith,
              entry-set_self c.entries i (record (entry c.entries i) { dirty = true }) lt,
            ),
            λ l.
                content-set disk c.entries i _ s l free (ground arith) co.unique
                ∙ ground (
                  arith,
                  content-hit disk c.entries s i (entry c.entries i).lba co.unique lt
                      (ground arith),
                ),
          )
  ]
