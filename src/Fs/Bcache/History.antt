-- ===== src/Fs/Bcache/History.antt =====
-- Any sequence of calls against a plain array of sectors.
use plant_os.Base.{
  ℕ, zero, suc, ◌+◌, ◌≡◌, refl, ◌∙◌, inl, inr, true, ◌&&◌, Option, none, some, List, [], ◌∷◌,
  length, ◌==◌, if◌then◌else◌, Bool-cases, arith,
}
use plant_os.Fs.Bcache.{
  Entry, Cache, Disk, entry, sync_loop, bcache_read, bcache_write, bcache_mark_dirty, bcache_sync,
  bcache_invalidate,
}
use plant_os.Fs.Bcache.Content.{content}
use plant_os.Fs.Bcache.Evict.{IsCoherent}
use plant_os.Fs.Bcache.Read.{IsRead, bcache_read-IsRead}
use plant_os.Fs.Bcache.Write.{bcache_write-IsWritten, bcache_mark_dirty_lem}
use plant_os.Fs.Bcache.Sync.{bcache_sync-IsDurable, bcache_invalidate_lem}

-- A client's call.
pub data Op : Type 0 where
  read mark_dirty : ℕ → Op
  write : ℕ → List ℕ → Op
  sync invalidate : Op

-- The specification: an array of sectors. A read shows the bytes, the other calls nothing.
abbrev pub Sectors : Type 0
Sectors = ℕ → List ℕ

pub spec_step : Sectors → Op → Option (List ℕ) × Sectors
spec_step m (read lba) = (some (m lba), m)
spec_step m (write lba buf) = (none, λ l. if l == lba then buf else m l)
spec_step m op = (none, m)

pub spec_run : Sectors → List Op → List (Option (List ℕ))
spec_run m [] = []
spec_run m (op ∷ ops) = let (r, m') = spec_step m op in r ∷ spec_run m' ops

-- The bytes behind the pointer that `bcache_read` returns.
abbrev pointee : Option ℕ × Cache → Option (List ℕ)
pointee (none, c) = none
pointee (some i, c) = some (entry c.entries i).bytes

module _ (disk : Disk) where
  open disk use {State, read_sectors, write_sectors}

  pub step : Cache → State → Op → Option (List ℕ) × Cache × State
  step c s (read lba) = let (o, c', s') = bcache_read disk c s lba in (pointee (o, c'), c', s')
  step c s (mark_dirty lba) = (none, bcache_mark_dirty c lba, s)
  step c s (write lba buf) = let (c', s') = bcache_write disk c s lba buf in (none, c', s')
  step c s sync = let (_, c', s') = bcache_sync disk c s in (none, c', s')
  step c s invalidate = let (c', s') = bcache_invalidate disk c s in (none, c', s')

  pub run : Cache → State → List Op → List (Option (List ℕ))
  run c s [] = []
  run c s (op ∷ ops) = let (r, c', s') = step c s op in r ∷ run c' s' ops

  -- A disk on which no transfer fails.
  pub record IsReliable : Type 0 where
    pub reads : (s : State) (lba : ℕ) → (read_sectors s lba).0 ≡ true
    pub writes : (s : State) (lba : ℕ) (b : List ℕ) → (write_sectors s lba b).0 ≡ true

  -- The cache over the disk stands for the array `m`.
  pub record Shows (c : Cache) (s : State) (m : Sectors) : Type 0 where
    pub coherent : IsCoherent disk c.entries s
    pub bytes : (l : ℕ) → content disk c.entries s l ≡ m l

  sync_loop-some :
      (k i flushed : ℕ) (es : List Entry) (s : State)
      → IsReliable
      → (n : ℕ) × ((sync_loop disk k i flushed es s).0 ≡ some n)
  unfolding sync_loop
  sync_loop-some zero i flushed es s ok = (flushed, refl)
  sync_loop-some (suc k) i flushed es s ok =
      elim (Bool-cases ((entry es i).valid && (entry es i).dirty)) [
        | inl due ↦
            rw (due, ok.writes s (entry es i).lba (entry es i).bytes)
              (sync_loop-some k (i + 1) (flushed + 1) _ _ ok)
        | inr skip ↦ rw skip (sync_loop-some k (i + 1) flushed es s ok)
      ]

  read-Shows :
      (c : Cache) (s : State) (m : Sectors) (lba : ℕ) (out : Option ℕ × Cache × State)
      → IsReliable
      → Shows c s m
      → IsRead disk c.entries s lba out
      → (pointee (out.0, out.1) ≡ some (m lba)) × Shows out.1 out.2 m
  read-Shows c s m lba (none, c', s') ok sh r =
      let (t, bad) = r.failed refl in cc (ok.reads t lba, bad)
  read-Shows c s m lba (some i, c', s') ok sh r = (
    ground (arith, r.slot i refl, sh.bytes lba),
    record { coherent = r.coherent; bytes = λ l. r.same l ∙ sh.bytes l },
  )

  -- One call keeps the two in step, and shows the client the same.
  pub step_refines :
      (c : Cache) (s : State) (m : Sectors) (op : Op)
      → IsReliable
      → Shows c s m
      → let (r, c', s') = step c s op in let (r', m') = spec_step m op in (r ≡ r') × Shows c' s' m'
  unfolding step spec_step bcache_sync
  step_refines c s m (read lba) ok sh =
      read-Shows c s m lba _ ok sh (bcache_read-IsRead disk c s lba sh.coherent (ok.writes s))
  step_refines c s m (mark_dirty lba) ok sh =
      let (co, _, same) = bcache_mark_dirty_lem disk c s lba sh.coherent in
      (refl, record { coherent = co; bytes = λ l. same l ∙ sh.bytes l })
  step_refines c s m (write lba buf) ok sh =
      let w = bcache_write-IsWritten disk c s lba buf sh.coherent (ok.writes s) in
      (refl, record { coherent = w.coherent; bytes = λ l. w.shows l ∙ ground (arith, sh.bytes l) })
  step_refines c s m sync ok sh =
      let d = bcache_sync-IsDurable disk c s sh.coherent in
      (refl, record { coherent = d.coherent; bytes = λ l. d.same l ∙ sh.bytes l })
  step_refines c s m invalidate ok sh =
      let (co, _, same) = bcache_invalidate_lem disk c s sh.coherent in
      let (n, e) = sync_loop-some (length c.entries) 0 0 c.entries s ok in
      (refl, record { coherent = co; bytes = λ l. same n e l ∙ sh.bytes l })

  -- A cache that stands for an array of sectors, over a disk on which no transfer fails, returns what
  -- the array returns, for every sequence of calls.
  pub run_refines :
      (ops : List Op) (c : Cache) (s : State) (m : Sectors)
      → IsReliable
      → Shows c s m
      → run c s ops ≡ spec_run m ops
  unfolding run spec_run
  run_refines [] c s m ok sh = refl
  run_refines (op ∷ ops) c s m ok sh =
      let (same, next) = step_refines c s m op ok sh in rw (same, run_refines ops _ _ _ ok next)
