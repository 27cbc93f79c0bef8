-- ===== src/Fs/Bcache/Content.antt =====
-- The sectors that a client of the cache sees, and how writing one slot changes them.
use plant_os.Base.{
  ℕ, ◌<◌, ◌≡◌, ◌≢◌, refl, ap, ◌∙◌, ◌⊎◌, inl, inr, true, false, none, some, List, length, length-set,
  get_or, get_or-set, set, find_index, find_index-cases, ◌==◌, if◌then◌else◌, Bool-cases, ==_iff,
  arith,
}
use plant_os.Fs.Bcache.{Entry, Disk, blank, entry, hit, bcache_find}

-- No sector is cached twice.
abbrev pub Unique : List Entry → Type 0
Unique es =
    (i j : ℕ)
    → i < length es
    → j < length es
    → (entry es i).valid ≡ true
    → (entry es j).valid ≡ true
    → (entry es i).lba ≡ (entry es j).lba
    → i ≡ j

pub entry-set :
    (es : List Entry) (i j : ℕ) (e : Entry)
    → i < length es
    → entry (set es i e) j ≡ (if i == j then e else entry es j)
unfolding entry
entry-set es i j e lt = get_or-set es i j e blank lt

pub entry-set_self :
    (es : List Entry) (i : ℕ) (e : Entry) → i < length es → entry (set es i e) i ≡ e
entry-set_self es i e lt = ground (arith, entry-set es i i e lt)

pub entry-eq : (es : List Entry) (i : ℕ) → entry es i ≡ get_or es i blank
unfolding entry
entry-eq es i = refl

module _ (disk : Disk) where
  open disk use {State, sector}

  -- The bytes of sector `l` for a client: the cached ones, or else those of the disk.
  unfoldable pub content : List Entry → State → ℕ → List ℕ
  content es s l = elim (find_index (hit l) es) [ some i ↦ (entry es i).bytes | none ↦ sector s l ]

  -- Where a client's bytes come from.
  pub data Holds (es : List Entry) (s : State) (l : ℕ) (b : List ℕ) : Type 0 where
    cached :
        (i : ℕ)
        → i < length es
        → hit l (entry es i) ≡ true
        → (entry es i).bytes ≡ b
        → Holds es s l b
    absent :
        ((j : ℕ) → j < length es → hit l (entry es j) ≡ false) → sector s l ≡ b → Holds es s l b

  pub content-Holds : (es : List Entry) (s : State) (l : ℕ) → Holds es s l (content es s l)
  unfolding content entry
  content-Holds es s l = elim (find_index-cases (hit l) blank es) [
    | inl (e, n) ↦ absent n (rw (e, content))
    | inr (i, e, f) ↦ cached i f.in_range f.passes (rw (e, content))
  ]

  hit_same_lba : (l : ℕ) (e : Entry) → hit l e ≡ true → (e.valid ≡ true) × (e.lba ≡ l)
  hit_same_lba l e h = ground arith

  pub Holds-content :
      {es : List Entry} {s : State} {l : ℕ} {b : List ℕ}
      → Unique es
      → Holds es s l b
      → content es s l ≡ b
  unfolding content entry
  Holds-content {es} {s} {l} u (cached i lt h e) = elim (find_index-cases (hit l) blank es) [
    | inl (_, n) ↦ cc (n i lt)
    | inr (j, e', f) ↦
        rw (e', content)
          (ap (λ k. (entry es k).bytes)
              (u j i f.in_range lt (hit_same_lba l (entry es j) f.passes).0
                (hit_same_lba l (entry es i) h).0
                (ground
                  (arith, hit_same_lba l (entry es j) f.passes, hit_same_lba l (entry es i) h)))
            ∙ e)
  ]
  Holds-content {es} {s} {l} u (absent n e) = elim (find_index-cases (hit l) blank es) [
    | inl (e', _) ↦ rw (e', content) e
    | inr (j, e', f) ↦ cc (n j f.in_range)
  ]

  -- A cached sector shows the bytes of its slot, any other those of the disk.
  pub content-hit :
      (es : List Entry) (s : State) (i l : ℕ)
      → Unique es
      → i < length es
      → hit l (entry es i) ≡ true
      → content es s l ≡ (entry es i).bytes
  content-hit es s i l u lt h = Holds-content u (cached i lt h refl)

  pub content-miss :
      (es : List Entry) (s : State) (l : ℕ)
      → Unique es
      → ((j : ℕ) → j < length es → hit l (entry es j) ≡ false)
      → content es s l ≡ sector s l
  content-miss es s l u n = Holds-content u (absent n refl)

-- The search of `bcache_find`, with what each outcome says.
pub bcache_find-cases :
    (es : List Entry) (l : ℕ)
    → ((bcache_find es l ≡ none) × ((j : ℕ) → j < length es → hit l (entry es j) ≡ false))
      ⊎ ((i : ℕ) × (bcache_find es l ≡ some i) × (i < length es) × (hit l (entry es i) ≡ true))
unfolding bcache_find entry
bcache_find-cases es l = elim (find_index-cases (hit l) blank es) [
  | inl (e, n) ↦ inl (e, n)
  | inr (i, e, f) ↦ inr (i, e, f.in_range, f.passes)
]

-- Slot `i` may be given to sector `l`: no other slot holds it, and slot `i` holds nothing else.
pub record IsFree (es : List Entry) (i l : ℕ) : Type 0 where
  pub in_range : i < length es
  pub alone : (j : ℕ) → j < length es → hit l (entry es j) ≡ true → j ≡ i
  pub empty : (entry es i).valid ≡ true → (entry es i).lba ≡ l

module _ (es : List Entry) (i : ℕ) (e : Entry) where
  -- Writing an entry for a sector to a slot that is free for it keeps the sectors distinct,
  pub set-Unique : IsFree es i e.lba → Unique es → Unique (set es i e)
  set-Unique f u j k lj lk vj vk ej = ground (
    arith,
    length-set es i e,
    entry-set es i j e f.in_range,
    entry-set es i k e f.in_range,
    f.alone j,
    f.alone k,
    u j k,
  )

module _ (disk : Disk) (es : List Entry) (i : ℕ) (e : Entry) where
  open disk use {State, sector}

  -- shows the new bytes under that sector,
  pub set-Holds_self :
      (s : State) → IsFree es i e.lba → e.valid ≡ true → Holds disk (set es i e) s e.lba e.bytes
  set-Holds_self s f v =
      cached i (ground (arith, length-set es i e, f.in_range))
        (ground (arith, entry-set es i i e f.in_range))
        (ground (arith, entry-set es i i e f.in_range))

  -- and changes no other sector.
  pub set-Holds_ne :
      (s : State) {l : ℕ} {b : List ℕ}
      → IsFree es i e.lba
      → l ≢ e.lba
      → Holds disk es s l b
      → Holds disk (set es i e) s l b
  set-Holds_ne s {l} f ne (cached j lt h eb) =
      cached j (ground (arith, length-set es i e))
        (ground (arith, entry-set es i j e f.in_range, f.empty))
        (ground (arith, entry-set es i j e f.in_range, f.empty))
  set-Holds_ne s {l} f ne (absent n eb) =
      absent (λ j lt. ground (arith, entry-set es i j e f.in_range, length-set es i e, n j)) eb

  -- So a client sees the new bytes under the one sector, and all else as it was.
  pub content-set :
      (s : State) (l : ℕ)
      → IsFree es i e.lba
      → e.valid ≡ true
      → Unique es
      → content disk (set es i e) s l ≡ (if l == e.lba then e.bytes else content disk es s l)
  content-set s l f v u = elim (Bool-cases (l == e.lba)) [
    | inl p ↦ rw p (
        Holds-content disk (set-Unique es i e f u)
          (rw ((==_iff l e.lba).0 p) (set-Holds_self s f v)))
    | inr p ↦ rw p (
        Holds-content disk (set-Unique es i e f u)
          (set-Holds_ne s f (λ q. ground arith) (content-Holds disk es s l)))
  ]

-- Writing to a slot that is not in use changes nothing that a client sees.
module _ (es : List Entry) (i : ℕ) (e : Entry) (lt : i < length es)
    (was : (entry es i).valid ≡ false) (off : e.valid ≡ false) where
  pub idle-Unique : Unique es → Unique (set es i e)
  idle-Unique u j k lj lk vj vk ej =
      ground (arith, length-set es i e, entry-set es i j e lt, entry-set es i k e lt, u j k)

  pub idle-Holds :
      (disk : Disk) (s : disk.State) {l : ℕ} {b : List ℕ}
      → Holds disk es s l b
      → Holds disk (set es i e) s l b
  idle-Holds disk s (cached j lj h eb) =
      cached j (ground (arith, length-set es i e)) (ground (arith, entry-set es i j e lt))
        (ground (arith, entry-set es i j e lt))
  idle-Holds disk s (absent n eb) =
      absent (λ j lj. ground (arith, entry-set es i j e lt, length-set es i e, n j)) eb
