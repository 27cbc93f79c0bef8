-- ===== src/Fs/Vfs/Content.antt =====
-- The content of a file in fs/vfs.c, the bytes that its size counts, after a write and for a read.
use plant_os.Base.{
  ℕ, zero, suc, ◌+◌, ◌-◌, ◌*◌, ◌%◌, ◌^◌, ◌<◌, ◌≤◌, ◌≡◌, refl, sym, ap, ap₂, ◌∙◌, ◌⊎◌, inl, inr,
  Option, none, some, List, [], ◌∷◌, length, get_or, set, take, drop, length-set, length-take,
  ltb→lt, get_or-set, ltb, if◌then◌else◌, Bool-cases, Option-cases, ℕ_discrete, arith,
}
use Prim.Native.Nat.{max}
use plant_os.Fs.Ramfs.{VfsInode}
use plant_os.Fs.Vfs.Data.{memcpy_to, file_grow, file_put}

pub length-memcpy_to :
    (bytes : List ℕ) (i : ℕ) (xs : List ℕ) → length (memcpy_to bytes i xs) ≡ length bytes
unfolding memcpy_to
length-memcpy_to bytes i [] = refl
length-memcpy_to bytes i (x ∷ xs) =
    length-memcpy_to (set bytes i x) (i + 1) xs ∙ length-set bytes i x

cons-at :
    (x : ℕ) (xs : List ℕ) (j i : ℕ) → i < j → get_or (x ∷ xs) (j - i) 0 ≡ get_or xs (j - (i + 1)) 0
cons-at x xs j i h =
    let e : j - i ≡ suc (j - (i + 1)) = omega arith in ap (λ k. get_or (x ∷ xs) k 0) e

-- What is stored, and what is not stored over.
pub memcpy_to-outside :
    (bytes : List ℕ) (i : ℕ) (xs : List ℕ) (j : ℕ)
    → i + length xs ≤ length bytes
    → (j < i) ⊎ (i + length xs ≤ j)
    → get_or (memcpy_to bytes i xs) j 0 ≡ get_or bytes j 0
unfolding memcpy_to
memcpy_to-outside bytes i [] j h out = refl
memcpy_to-outside bytes i (x ∷ xs) j h out =
    memcpy_to-outside (set bytes i x) (i + 1) xs j (omega (arith, length-set bytes i x))
      (elim out [ inl before ↦ inl (omega arith) | inr behind ↦ inr (omega arith) ])
    ∙ ground (arith, get_or-set bytes i j x 0 (omega arith))

pub memcpy_to-inside :
    (bytes : List ℕ) (i : ℕ) (xs : List ℕ) (j : ℕ)
    → i + length xs ≤ length bytes
    → i ≤ j
    → j < i + length xs
    → get_or (memcpy_to bytes i xs) j 0 ≡ get_or xs (j - i) 0
unfolding memcpy_to
memcpy_to-inside bytes i [] j h le lt = absurd (omega arith)
memcpy_to-inside bytes i (x ∷ xs) j h le lt = elim (ℕ_discrete i j) [
  | yes eq ↦
      memcpy_to-outside (set bytes i x) (i + 1) xs j (omega (arith, length-set bytes i x))
        (inl (omega arith))
      ∙ (let e : j - i ≡ 0 = omega arith in
          rw e (ground (arith, get_or-set bytes i j x 0 (omega arith), eq)))
  | no ne ↦
      memcpy_to-inside (set bytes i x) (i + 1) xs j (omega (arith, length-set bytes i x))
        (omega arith) (omega arith)
      ∙ sym (cons-at x xs j i (omega arith))
]

pub drop-at : (n : ℕ) (xs : List ℕ) → n < length xs → drop n xs ≡ get_or xs n 0 ∷ drop (suc n) xs
drop-at zero [] h = absurd (omega arith)
drop-at zero (x ∷ xs) h = refl
drop-at (suc n) [] h = absurd (omega arith)
drop-at (suc n) (x ∷ xs) h = drop-at n xs (omega arith)

-- A part of a block, byte by byte.
pub take-drop_bytes :
    (bytes : List ℕ) (i : ℕ) (xs : List ℕ)
    → i + length xs ≤ length bytes
    → ((j : ℕ) → j < length xs → get_or bytes (i + j) 0 ≡ get_or xs j 0)
    → take (length xs) (drop i bytes) ≡ xs
take-drop_bytes bytes i [] h same = refl
take-drop_bytes bytes i (x ∷ xs) h same = rw (drop-at i bytes (omega arith)) (
    ap₂ (λ a l. a ∷ l) (ap (λ k. get_or bytes k 0) (plus-zero i) ∙ same 0 (omega arith))
      (take-drop_bytes bytes (suc i) xs (omega arith)
        (λ j lt. ap (λ k. get_or bytes k 0) (suc-shift i j) ∙ same (suc j) (omega arith))))
  where
    plus-zero : (i : ℕ) → i ≡ i + 0
    plus-zero i = omega arith

    suc-shift : (i j : ℕ) → suc i + j ≡ i + suc j
    suc-shift i j = omega arith

-- The memory of a file is as long as its capacity, and the size counts bytes of it.
pub record IsFile (n : VfsInode) : Type 0 where
  pub capacity : n.capacity ≡ length n.bytes
  pub sized : n.size ≤ length n.bytes

-- A block is as long as was asked for.
abbrev pub GivesBlocks : (ℕ → Option (List ℕ)) → Type 0
GivesBlocks kmalloc = (n : ℕ) (block : List ℕ) → kmalloc n ≡ some block → length block ≡ n

-- The same file with room for `needed` bytes.
pub record HasGrown (n : VfsInode) (needed : ℕ) (m : VfsInode) : Type 0 where
  pub file : IsFile m
  pub room : needed ≤ length m.bytes
  pub used : m.used ≡ n.used
  pub type : m.type ≡ n.type
  pub size : m.size ≡ n.size
  pub content : (j : ℕ) → j < n.size → get_or m.bytes j 0 ≡ get_or n.bytes j 0

get_or-take : (n : ℕ) (xs : List ℕ) (j : ℕ) → j < n → get_or (take n xs) j 0 ≡ get_or xs j 0
get_or-take zero xs j h = absurd (omega arith)
get_or-take (suc n) [] j h = refl
get_or-take (suc n) (x ∷ xs) zero h = refl
get_or-take (suc n) (x ∷ xs) (suc j) h = get_or-take n xs j (omega arith)

-- In a block of `room` bytes.
abbrev moved : VfsInode → List ℕ → ℕ → VfsInode
moved n block room = record n { bytes = memcpy_to block 0 (take n.size n.bytes); capacity = room }

moved-HasGrown :
    (n : VfsInode) (block : List ℕ) (room needed : ℕ)
    → IsFile n
    → length block ≡ room
    → needed ≤ room
    → n.size ≤ room
    → HasGrown n needed (moved n block room)
moved-HasGrown n block room needed file e fits fits' =
    let counted : length (take n.size n.bytes) ≡ n.size =
      omega (arith, length-take n.size n.bytes, file.sized) in
    let stored = length-memcpy_to block 0 (take n.size n.bytes) in
    record {
      file = record { capacity = omega (arith, stored); sized = omega (arith, stored) };
      room = omega (arith, stored);
      used = refl;
      type = refl;
      size = refl;
      content = λ j lt.
          let zero_less : j - 0 ≡ j = omega arith in
          memcpy_to-inside block 0 (take n.size n.bytes) j (omega arith) (omega arith) (omega arith)
          ∙ ap (λ k. get_or (take n.size n.bytes) k 0) zero_less
          ∙ get_or-take n.size n.bytes j lt;
    }

-- The file has to grow, and there is no memory: not as many bytes as `file_grow` asks for.
pub record NoRoom (kmalloc : ℕ → Option (List ℕ)) (n : VfsInode) (needed : ℕ) : Type 0 where
  pub short : n.capacity < needed
  pub no_block : kmalloc (max 256 (needed * 2)) ≡ none

-- `file_grow` fails for lack of memory, or makes room.
pub file_grow-HasGrown :
    (kmalloc : ℕ → Option (List ℕ)) (n : VfsInode) (needed : ℕ)
    → GivesBlocks kmalloc
    → IsFile n
    → needed < 2 ^ 31
    → ((file_grow kmalloc n needed ≡ none) × NoRoom kmalloc n needed)
      ⊎ ((m : VfsInode) × (file_grow kmalloc n needed ≡ some m) × HasGrown n needed m)
unfolding file_grow
file_grow-HasGrown kmalloc n needed gives file small = elim (Bool-cases (ltb n.capacity needed)) [
  | inr fits ↦ inr (
    n,
    rw fits refl,
    record {
      file = file;
      room = ground (arith, file.capacity);
      used = refl;
      type = refl;
      size = refl;
      content = λ j lt. refl;
    },
  )
  | inl short ↦
      let twice = needed * 2 % 2 ^ 32 in
      let new_cap = if ltb twice 256 then 256 else twice in
      elim (Option-cases (kmalloc new_cap)) [
        | inl e ↦
            let asked : new_cap ≡ max 256 (needed * 2) = ground arith in
            inl (
              rw (short, e) refl,
              record { short = ltb→lt _ _ short; no_block = sym (ap kmalloc asked) ∙ e },
            )
        | inr (block, e) ↦ inr (
          moved n block new_cap,
          rw (short, e) refl,
          moved-HasGrown n block new_cap needed file (gives new_cap block e) (ground arith)
              (ground (arith, file.sized, file.capacity)),
        )
      ]
]

-- The file with the bytes at `off`, and the bytes that the size counted elsewhere.
pub record HasPut (n : VfsInode) (off : ℕ) (xs : List ℕ) (m : VfsInode) : Type 0 where
  pub file : IsFile m
  pub used : m.used ≡ n.used
  pub type : m.type ≡ n.type
  pub size : m.size ≡ max n.size (off + length xs)
  pub new_bytes : (j : ℕ) → j < length xs → get_or m.bytes (off + j) 0 ≡ get_or xs j 0
  pub old_bytes :
      (j : ℕ)
      → j < n.size
      → (j < off) ⊎ (off + length xs ≤ j)
      → get_or m.bytes j 0 ≡ get_or n.bytes j 0

pub file_put-HasPut :
    (n m : VfsInode) (off : ℕ) (xs : List ℕ)
    → off + length xs < 2 ^ 31
    → HasGrown n (off + length xs) m
    → HasPut n off xs (file_put m off xs)
unfolding file_put
file_put-HasPut n m off xs small g =
    let no_wrap : (off + length xs) % 2 ^ 32 ≡ off + length xs = omega arith in
    let stored = length-memcpy_to m.bytes off xs in
    rw no_wrap (record {
      file = record { capacity = omega (arith, stored); sized = ground (arith, stored) };
      used = g.used;
      type = g.type;
      size = ground (arith, g.size);
      new_bytes = λ j lt.
          let back : off + j - off ≡ j = omega arith in
          memcpy_to-inside m.bytes off xs (off + j) g.room (omega arith) (omega arith)
          ∙ ap (λ k. get_or xs k 0) back;
      old_bytes = λ j lt out. memcpy_to-outside m.bytes off xs j g.room out ∙ g.content j lt;
    })
