-- ===== src/Fs/Bcache/Read.antt =====
-- `bcache_read` against the sectors that a client sees.
use plant_os.Base.{
  ℕ, ◌<◌, ◌≡◌, refl, sym, ◌∙◌, inl, inr, true, false, Option, none, some, List, length, length-set,
  set, Bool-cases, arith,
}
use plant_os.Fs.Bcache.{Entry, Cache, Disk, entry, hit, touch, load, bcache_read, inc32}
use plant_os.Fs.Bcache.Content.{
  Unique, Holds, cached, absent, content, content-Holds, Holds-content, entry-set, IsFree,
  set-Unique, content-set, content-hit, content-miss, idle-Unique, idle-Holds, bcache_find-cases,
}
use plant_os.Fs.Bcache.Evict.{IsCoherent, Writable, IsEvicted, bcache_evict-IsEvicted}

module _ (disk : Disk) where
  open disk use {State, sector, read_sectors}

  -- A state with the same sectors serves as well.
  pub Holds-same :
      {es : List Entry} {s s' : State} {l : ℕ} {b : List ℕ}
      → sector s' l ≡ sector s l
      → Holds disk es s l b
      → Holds disk es s' l b
  Holds-same e (cached i lt h eb) = cached i lt h eb
  Holds-same e (absent n eb) = absent n (e ∙ eb)

  pub IsCoherent-same :
      {es : List Entry} {s s' : State}
      → ((l : ℕ) → sector s' l ≡ sector s l)
      → IsCoherent disk es s
      → IsCoherent disk es s'
  IsCoherent-same {es} e c = record {
    sized = c.sized;
    unique = c.unique;
    clean = λ i lt v d. c.clean i lt v d ∙ sym (e (entry es i).lba);
  }

  -- Giving a free slot a valid entry that is dirty or agrees with the disk.
  pub set-IsCoherent :
      (es : List Entry) (i : ℕ) (e : Entry) (s : State)
      → IsFree es i e.lba
      → (e.dirty ≡ false → e.bytes ≡ sector s e.lba)
      → IsCoherent disk es s
      → IsCoherent disk (set es i e) s
  set-IsCoherent es i e s f agree c = record {
    sized = length-set es i e ∙ c.sized;
    unique = set-Unique es i e f c.unique;
    clean = λ j lj vj dj.
        ground (arith, length-set es i e, entry-set es i j e f.in_range, c.clean j, agree);
  }

  -- A slot that a search finds is free for its sector.
  pub hit-IsFree :
      (es : List Entry) (i l : ℕ)
      → Unique es
      → i < length es
      → hit l (entry es i) ≡ true
      → IsFree es i l
  hit-IsFree es i l u lt h = record {
    in_range = lt;
    alone = λ j lj hj. ground (arith, u j i lj lt);
    empty = λ v. ground arith;
  }

  -- So is a slot that an eviction frees, for a sector that was not cached.
  pub evicted-IsFree :
      (es : List Entry) (s : State) (l : ℕ) (out : ℕ × List Entry × State)
      → IsEvicted disk es s out
      → ((j : ℕ) → j < length es → hit l (entry es j) ≡ false)
      → IsFree out.1 out.0 l
  evicted-IsFree es s l out ev n = record {
    in_range = omega (arith, ev.in_range, ev.coherent.sized);
    alone = λ j lj hj. ground (arith, ev.misses l n j lj);
    empty = λ v. ground (arith, ev.freed);
  }

  -- What a client may rely on after a read of `lba`: a coherent cache, the same bytes in every
  -- sector, a slot that holds the bytes of `lba`, and a NULL only where the driver failed.
  pub record IsRead (es : List Entry) (s : State) (lba : ℕ) (out : Option ℕ × Cache × State)
      : Type 0 where
    pub coherent : IsCoherent disk out.1.entries out.2
    pub same : (l : ℕ) → content disk out.1.entries out.2 l ≡ content disk es s l
    pub slot :
        (i : ℕ)
        → out.0 ≡ some i
        → (hit lba (entry out.1.entries i) ≡ true)
          × ((entry out.1.entries i).bytes ≡ content disk es s lba)
    pub failed : out.0 ≡ none → (t : State) × ((read_sectors t lba).0 ≡ false)

  touch-IsRead :
      (c : Cache) (s : State) (lba i : ℕ)
      → IsCoherent disk c.entries s
      → i < length c.entries
      → hit lba (entry c.entries i) ≡ true
      → IsRead c.entries s lba (some i, touch c i, s)
  unfolding touch
  touch-IsRead c s lba i co lt h =
      let free = hit-IsFree c.entries i (entry c.entries i).lba co.unique lt (ground arith) in
      record {
        coherent = set-IsCoherent c.entries i _ s free (co.clean i lt (ground arith)) co;
        same = λ l.
            content-set disk c.entries i _ s l free (ground arith) co.unique
            ∙ ground (
              arith,
              content-hit disk c.entries s i (entry c.entries i).lba co.unique lt (ground arith),
            );
        slot = λ j e. ground (
          arith,
          entry-set c.entries i j
              (record (entry c.entries i) { access_tick = inc32 c.tick_counter }) lt,
          content-hit disk c.entries s i lba co.unique lt h,
        );
        failed = λ e. cc;
      }

  -- An eviction followed by a read of the disk shows a client what it saw before.
  pub reread :
      (es : List Entry) (s t t' : State) (i l : ℕ) (es' : List Entry)
      → ((l : ℕ) → sector t' l ≡ sector t l)
      → IsEvicted disk es s (i, es', t)
      → content disk es' t' l ≡ content disk es s l
  reread es s t t' i l es' e ev =
      Holds-content disk ev.coherent.unique
        (Holds-same (e l) (ev.kept l (content-Holds disk es s l)))

  module _ (c : Cache) (s t : State) (lba i : ℕ) (es : List Entry)
      (n : (j : ℕ) → j < length c.entries → hit lba (entry c.entries j) ≡ false)
      (ev : IsEvicted disk c.entries s (i, es, t)) where
    free : IsFree es i lba
    free = evicted-IsFree c.entries s lba (i, es, t) ev n

    loaded : Entry
    loaded = record {
      lba = lba;
      bytes = (read_sectors t lba).1;
      valid = true;
      dirty = false;
      access_tick = inc32 c.tick_counter;
    }

    after : State
    after = (read_sectors t lba).2

    -- What the driver reads is what the client saw under `lba`.
    got : (read_sectors t lba).0 ≡ true → content disk c.entries s lba ≡ (read_sectors t lba).1
    got ok =
        sym (reread c.entries s t t i lba es (λ _. refl) ev)
        ∙ content-miss disk es t lba ev.coherent.unique (ev.misses lba n)
        ∙ sym (disk.read_ok t lba ok)

    load_ok-IsRead :
        (read_sectors t lba).0 ≡ true → IsRead c.entries s lba (load disk c lba (i, es, t))
    unfolding load after loaded
    load_ok-IsRead ok =
        let same = λ (l : ℕ). reread c.entries s t after i l es (disk.read_keeps t lba) ev in
        rw ok (record {
          coherent =
              set-IsCoherent es i _ after free
                (λ _. disk.read_ok t lba ok ∙ sym (disk.read_keeps t lba lba))
                (IsCoherent-same (disk.read_keeps t lba) ev.coherent);
          same = λ l.
              content-set disk es i _ after l free refl ev.coherent.unique
              ∙ ground (arith, got ok, same l);
          slot = λ j e. ground (arith, entry-set es i j loaded free.in_range, got ok);
          failed = λ e. cc;
        })

    load_failed-IsRead :
        (read_sectors t lba).0 ≡ false → IsRead c.entries s lba (load disk c lba (i, es, t))
    unfolding load after
    load_failed-IsRead bad =
        let idle = record (entry es i) { bytes = (read_sectors t lba).1 } in
        let unique = idle-Unique es i idle free.in_range ev.freed ev.freed ev.coherent.unique in
        rw bad (record {
          coherent = record {
            sized = length-set es i idle ∙ ev.coherent.sized;
            unique = unique;
            clean = λ j lj vj dj. ground (
              arith,
              length-set es i idle,
              entry-set es i j idle free.in_range,
              ev.freed,
              ev.coherent.clean j,
              disk.read_keeps t lba (entry es j).lba,
            );
          };
          same = λ l. Holds-content disk unique (
              idle-Holds es i idle free.in_range ev.freed ev.freed disk after (
                Holds-same (disk.read_keeps t lba l)
                  (ev.kept l (content-Holds disk c.entries s l))));
          slot = λ j e. cc;
          failed = λ _. (t, bad);
        })

  load-IsRead :
      (c : Cache) (s : State) (lba : ℕ) (out : ℕ × List Entry × State)
      → ((j : ℕ) → j < length c.entries → hit lba (entry c.entries j) ≡ false)
      → IsEvicted disk c.entries s out
      → IsRead c.entries s lba (load disk c lba out)
  load-IsRead c s lba (i, es, t) n ev = elim (Bool-cases (read_sectors t lba).0) [
    | inl ok ↦ load_ok-IsRead c s t lba i es n ev ok
    | inr bad ↦ load_failed-IsRead c s t lba i es n ev bad
  ]

  -- `bcache_read` of a coherent cache, if no write of a dirty victim can fail: a hit, a miss with or
  -- without an eviction, or a failed read, all keep what `IsRead` lists.
  pub bcache_read-IsRead :
      (c : Cache) (s : State) (lba : ℕ)
      → IsCoherent disk c.entries s
      → Writable disk s
      → IsRead c.entries s lba (bcache_read disk c s lba)
  unfolding bcache_read
  bcache_read-IsRead c s lba co w = elim (bcache_find-cases c.entries lba) [
    | inl (e, n) ↦
        rw (e, bcache_read) (load-IsRead c s lba _ n (bcache_evict-IsEvicted disk c.entries s co w))
    | inr (i, e, lt, h) ↦ rw (e, bcache_read) (touch-IsRead c s lba i co lt h)
  ]
