-- ===== src/Fs/Bcache/Sync.antt =====
-- `bcache_sync` and `bcache_invalidate`: what reaches the disk.
use plant_os.Base.{
  ℕ, zero, suc, ◌+◌, ◌<◌, ◌≡◌, ◌≢◌, refl, sym, ◌∙◌, inl, inr, true, false, ◌&&◌, Option, some, List,
  length, length-set, length-replicate, set, replicate, get_or-replicate, Bool-cases, ℕ_discrete,
  arith,
}
use plant_os.Fs.Bcache.{
  Entry, Cache, Disk, entry, blank, sync_loop, bcache_sync, bcache_invalidate, bcache_size,
}
use plant_os.Fs.Bcache.Content.{
  Holds, cached, absent, content, content-Holds, Holds-content, entry-set, content-set, content-hit,
  content-miss,
}
use plant_os.Fs.Bcache.Evict.{IsCoherent}
use plant_os.Fs.Bcache.Read.{Holds-same, set-IsCoherent, hit-IsFree}

-- The slot has nothing to write back.
abbrev pub IsClean : List Entry → ℕ → Type 0
IsClean es i = ((entry es i).valid && (entry es i).dirty) ≡ false

unused : (i : ℕ) → (entry (replicate bcache_size blank) i).valid ≡ false
unfolding entry blank
unused i = rw (get_or-replicate bcache_size i blank)

module _ (disk : Disk) where
  open disk use {State, sector, write_sectors}

  -- A coherent cache that shows a client what it showed before.
  pub record IsKept (es : List Entry) (s : State) (es' : List Entry) (s' : State) : Type 0 where
    pub coherent : IsCoherent disk es' s'
    pub same : (l : ℕ) → content disk es' s' l ≡ content disk es s l
    pub sized : length es' ≡ length es

  IsKept-trans :
      {es es' es'' : List Entry} {s s' s'' : State}
      → IsKept es s es' s'
      → IsKept es' s' es'' s''
      → IsKept es s es'' s''
  IsKept-trans a b = record {
    coherent = b.coherent;
    same = λ l. b.same l ∙ a.same l;
    sized = b.sized ∙ a.sized;
  }

  -- The slot has nothing to write back.
  -- The round for a slot that is in use and dirty.
  module _ (es : List Entry) (s : State) (i : ℕ) (co : IsCoherent disk es s) (lt : i < length es)
      (v : (entry es i).valid ≡ true) (d : (entry es i).dirty ≡ true) where
    after : State
    after = (write_sectors s (entry es i).lba (entry es i).bytes).1

    -- Whether or not the write succeeds, no other sector of the disk changes,
    after_else : (l : ℕ) → l ≢ (entry es i).lba → sector after l ≡ sector s l
    unfolding after
    after_else = disk.write_keeps s (entry es i).lba (entry es i).bytes

    -- so the cache stays coherent and the client's view the same.
    after-IsKept : IsKept es s es after
    after-IsKept = record {
      coherent = record {
        sized = co.sized;
        unique = co.unique;
        clean = λ j lj vj dj.
            ground (arith, co.unique i j lt lj, co.clean j lj vj dj, after_else (entry es j).lba);
      };
      same = λ l. Holds-content disk co.unique (move l (content-Holds disk es s l));
      sized = refl;
    }
      where
        move : (l : ℕ) {b : List ℕ} → Holds disk es s l b → Holds disk es after l b
        move l (cached j lj h eb) = cached j lj h eb
        move l (absent n eb) =
            Holds-same disk (after_else l (λ q. ground (arith, n i lt))) (absent n eb)

    flushed-IsKept :
        (write_sectors s (entry es i).lba (entry es i).bytes).0 ≡ true
        → IsKept es s (set es i (record (entry es i) { dirty = false })) after
    unfolding after
    flushed-IsKept ok =
        let free = hit-IsFree disk es i (entry es i).lba co.unique lt (ground arith) in
        record {
          coherent =
              set-IsCoherent disk es i _ after free
                (λ _. sym (disk.write_ok s (entry es i).lba (entry es i).bytes ok))
                after-IsKept.coherent;
          same = λ l.
              content-set disk es i _ after l free v co.unique
              ∙ ground (
                arith,
                after-IsKept.same l,
                content-hit disk es s i (entry es i).lba co.unique lt (ground arith),
              );
          sized = length-set es i _;
        }

  -- What the loop leaves: nothing changed for a client, and no slot dirty if it ran to the end.
  record IsSynced (es : List Entry) (s : State) (out : Option ℕ × List Entry × State) : Type 0 where
    kept : IsKept es s out.1 out.2
    clean : (n : ℕ) → out.0 ≡ some n → (j : ℕ) → j < length out.1 → IsClean out.1 j

  IsSynced-trans :
      {es es' : List Entry} {s s' : State} {out : Option ℕ × List Entry × State}
      → IsKept es s es' s'
      → IsSynced es' s' out
      → IsSynced es s out
  IsSynced-trans a b = record { kept = IsKept-trans a b.kept; clean = b.clean }

  sync_loop-IsSynced :
      (k i flushed : ℕ) (es : List Entry) (s : State)
      → IsCoherent disk es s
      → i + k ≡ length es
      → ((j : ℕ) → j < i → IsClean es j)
      → IsSynced es s (sync_loop disk k i flushed es s)
  unfolding sync_loop after
  sync_loop-IsSynced zero i flushed es s co h before = record {
    kept = record { coherent = co; same = λ l. refl; sized = refl };
    clean = λ n e j lj. before j (omega arith);
  }
  sync_loop-IsSynced (suc k) i flushed es s co h before =
      elim (Bool-cases ((entry es i).valid && (entry es i).dirty)) [
        | inr skip ↦ rw skip (
            sync_loop-IsSynced k (i + 1) flushed es s co (omega arith)
              (λ j p. elim (ℕ_discrete j i) [ yes q ↦ rw q skip | no q ↦ before j (omega arith) ]))
        | inl due ↦ elim (Bool-cases (write_sectors s (entry es i).lba (entry es i).bytes).0) [
          | inl ok ↦
              let e = record (entry es i) { dirty = false } in
              let kept = flushed-IsKept es s i co (omega arith) (ground arith) (ground arith) ok in
              rw (due, ok)
                (IsSynced-trans kept (
                  sync_loop-IsSynced k (i + 1) (flushed + 1) (set es i e) _ kept.coherent
                    (omega (arith, kept.sized))
                    (λ j p. ground (
                      arith,
                      entry-set es i j (record (entry es i) { dirty = false }) (omega (arith, h)),
                      before j,
                    ))))
          | inr bad ↦
              rw (due, bad)
                (record {
                  kept = after-IsKept es s i co (omega arith) (ground arith) (ground arith);
                  clean = λ n e. cc;
                })
        ]
      ]

  -- What a client may rely on after `bcache_sync`: nothing changes for it, and if the result is
  -- not -1 the disk itself holds every sector as the client sees it.
  pub record IsDurable (es : List Entry) (s : State) (out : Option ℕ × Cache × State) : Type 0 where
    pub coherent : IsCoherent disk out.1.entries out.2
    pub same : (l : ℕ) → content disk out.1.entries out.2 l ≡ content disk es s l
    pub on_disk : (n : ℕ) → out.0 ≡ some n → (l : ℕ) → sector out.2 l ≡ content disk es s l

  clean-sector :
      {es : List Entry} {s : State} {l : ℕ} {b : List ℕ}
      → IsCoherent disk es s
      → ((j : ℕ) → j < length es → IsClean es j)
      → Holds disk es s l b
      → sector s l ≡ b
  clean-sector {es} co all (cached i lt h eb) = ground (arith, co.clean i lt, all i lt)
  clean-sector co all (absent n eb) = eb

  -- `bcache_sync` of a coherent cache changes no sector for a client, also where a write fails, and
  -- if it returns a count, the disk holds every sector as the client sees it.
  pub bcache_sync-IsDurable :
      (c : Cache) (s : State)
      → IsCoherent disk c.entries s
      → IsDurable c.entries s (bcache_sync disk c s)
  unfolding bcache_sync
  bcache_sync-IsDurable c s co =
      let done =
        sync_loop-IsSynced (length c.entries) 0 0 c.entries s co (omega arith)
          (λ j p. elim p [ ]) in
      record {
        coherent = done.kept.coherent;
        same = done.kept.same;
        on_disk = λ n e l.
            clean-sector done.kept.coherent (done.clean n e) (content-Holds disk _ _ l)
            ∙ done.kept.same l;
      }

  -- The empty table is coherent with any disk, and shows what is on it.
  pub blank-IsCoherent : (s : State) → IsCoherent disk (replicate bcache_size blank) s
  blank-IsCoherent s = record {
    sized = length-replicate bcache_size blank;
    unique = λ i j li lj vi vj e. cc (unused i);
    clean = λ i lt v d. cc (unused i);
  }

  pub content-blank :
      (s : State) (l : ℕ) → content disk (replicate bcache_size blank) s l ≡ sector s l
  content-blank s l =
      content-miss disk (replicate bcache_size blank) s l (blank-IsCoherent s).unique
        (λ j lj. ground (arith, unused j))

  -- After `bcache_invalidate` of a coherent cache a client sees the disk; if the sync succeeds, that is what it saw
  -- before.
  pub bcache_invalidate_lem :
      (c : Cache) (s : State)
      → IsCoherent disk c.entries s
      → let (c', s') = bcache_invalidate disk c s in
        IsCoherent disk c'.entries s'
        × ((l : ℕ) → content disk c'.entries s' l ≡ sector s' l)
        × ((n : ℕ)
            → (bcache_sync disk c s).0 ≡ some n
            → (l : ℕ) → content disk c'.entries s' l ≡ content disk c.entries s l)
  unfolding bcache_invalidate
  bcache_invalidate_lem c s co = (
    blank-IsCoherent _,
    content-blank _,
    λ n e l. content-blank _ l ∙ (bcache_sync-IsDurable c s co).on_disk n e l,
  )
