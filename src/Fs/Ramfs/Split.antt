-- ===== src/Fs/Ramfs/Split.antt =====
-- `split_path` of fs/ramfs.c, and how a path resolves through its parent.
use plant_os.Base.{
  ℕ, zero, suc, ◌+◌, ◌-◌, ◌<◌, ◌≤◌, ◌≡◌, ◌≢◌, refl, sym, ap, ap₂, ◌∙◌, ◌⊎◌, inl, inr, true, false,
  ◌||◌, not, Option, none, some, List, [], ◌∷◌, ◌++◌, length, get_or, take, drop, ◌==◌, ltb, leb,
  ltb→lt, ==_iff, if◌then◌else◌, Bool-cases, Option-cases, arith,
}
use plant_os.Fs.Ramfs.{
  VfsInode, slash, vfs_name_max, skip_slashes, component, dir_find, walk_path, ramfs_resolve_path,
  vfs_path_max, Run, overrun, returns, last_slash, split_path,
}
use plant_os.Fs.Ramfs.Path.{
  walk_on, walk-slashes, skip_slashes-nil, walk-append, walk-round, walk-stops,
}

take-drop_at :
    (xs : List ℕ) (i : ℕ) → i < length xs → xs ≡ take i xs ++ get_or xs i 0 ∷ drop (suc i) xs
take-drop_at [] i h = absurd (omega arith)
take-drop_at (x ∷ xs) zero h = refl
take-drop_at (x ∷ xs) (suc i) h = ap (λ l. x ∷ l) (take-drop_at xs i (omega arith))

suc-add : (n k : ℕ) → suc (n + k) ≡ suc n + k
suc-add n k = omega arith

get_or-drop : (n k : ℕ) (xs : List ℕ) → get_or (drop n xs) k 0 ≡ get_or xs (n + k) 0
get_or-drop zero k xs = ap (λ i. get_or xs i 0) (omega arith)
get_or-drop (suc n) k [] = refl
get_or-drop (suc n) k (x ∷ xs) = get_or-drop n k xs ∙ ap (λ i. get_or (x ∷ xs) i 0) (suc-add n k)

length-drop : (n : ℕ) (xs : List ℕ) → length (drop n xs) ≡ length xs - n
length-drop zero xs = omega arith
length-drop (suc n) [] = omega arith
length-drop (suc n) (x ∷ xs) = omega (arith, length-drop n xs)

-- No character is a slash.
abbrev pub IsPlain : List ℕ → Type 0
IsPlain name = (j : ℕ) → j < length name → (get_or name j 0 == slash) ≡ false

-- A name as an entry of a directory holds it whole.
pub record IsName (name : List ℕ) : Type 0 where
  pub nonempty : 0 < length name
  pub fits : length name < vfs_name_max
  pub plain : IsPlain name

record IsLast (path : List ℕ) (i l : ℕ) : Type 0 where
  at_most : l ≤ i
  found : (l ≡ 0) ⊎ (get_or path l 0 ≡ slash)
  last : (j : ℕ) → l < j → j ≤ i → (get_or path j 0 == slash) ≡ false

last_slash-IsLast : (path : List ℕ) (i : ℕ) → IsLast path i (last_slash path i)
unfolding last_slash
last_slash-IsLast path zero = record {
  at_most = omega arith;
  found = inl refl;
  last = λ j h k. absurd (omega arith);
}
last_slash-IsLast path (suc i) = elim (Bool-cases (get_or path (suc i) 0 == slash)) [
  | inl e ↦ rw e (record {
    at_most = omega arith;
    found = inr ((==_iff _ _).0 e);
    last = λ j h k. absurd (omega arith);
  })
  | inr e ↦ rw e (step e (last_slash-IsLast path i))
]
  where
    step :
        {l : ℕ} → (get_or path (suc i) 0 == slash) ≡ false → IsLast path i l → IsLast path (suc i) l
    step {l} e h = record {
      at_most = omega (arith, h.at_most);
      found = h.found;
      last = λ j lt le. elim (Bool-cases (j == suc i)) [
        | inl same ↦ let eq : j ≡ suc i = (==_iff _ _).0 same in rw eq e
        | inr other ↦ h.last j lt (ground (arith, other))
      ];
    }

-- The path is a name behind the slash of the root, or a name behind the last slash and a path.
pub data Split (path parent name : List ℕ) : Type 0 where
  in_root : path ≡ slash ∷ name → parent ≡ slash ∷ [] → IsPlain name → Split path parent name
  below :
      (p : List ℕ)
      → path ≡ slash ∷ p ++ slash ∷ name
      → parent ≡ slash ∷ p
      → IsPlain name
      → Split path parent name

pub Split-IsPlain : {path parent name : List ℕ} → Split path parent name → IsPlain name
Split-IsPlain (in_root e e' plain) = plain
Split-IsPlain (below p e e' plain) = plain

drop-IsPlain :
    (path : List ℕ) (i l : ℕ) → length path ≤ suc i → IsLast path i l → IsPlain (drop (suc l) path)
drop-IsPlain path i l hi h j lt =
    rw (get_or-drop (suc l) j path)
      (h.last (suc l + j) (omega arith) (omega (arith, lt, length-drop (suc l) path)))

-- The two parts at the last slash `l`.
parts-Split :
    (c : ℕ) (p : List ℕ) (i l : ℕ)
    → length p ≡ i
    → c ≡ slash
    → IsLast (c ∷ p) i l
    → Split (c ∷ p) (if l == 0 then slash ∷ [] else take l (c ∷ p)) (drop (suc l) (c ∷ p))
parts-Split c p i zero hi e h =
    in_root (ap (λ k. k ∷ p) e) refl (drop-IsPlain (c ∷ p) i zero (omega arith) h)
parts-Split c p i (suc k) hi e h = elim h.found [
  | inl z ↦ absurd (omega arith)
  | inr s ↦
      let ne : (suc k == 0) ≡ false = ground arith in
      rw ne (
        below (take k p)
          (ap₂ (λ a l. a ∷ l) e
            (take-drop_at p k (omega (arith, h.at_most))
              ∙ ap (λ a. take k p ++ a ∷ drop (suc k) p) s))
          (ap (λ a. a ∷ take k p) e) (drop-IsPlain (c ∷ p) i (suc k) (omega arith) h))
]

-- No slash and a character behind it.
abbrev pub NoParent : List ℕ → Type 0
NoParent path = (length path < 2) ⊎ (get_or path 0 0 ≢ slash)

-- With its NUL the parent or the name is longer than its array.
abbrev pub TooLong : List ℕ → List ℕ → Type 0
TooLong parent name = (vfs_path_max ≤ length parent) ⊎ (vfs_name_max ≤ length name)

-- The path has no parent, or is its parent and its name, and these fit into the arrays or not.
pub data IsParted (path : List ℕ) : Run (Option (List ℕ × List ℕ)) → Type 0 where
  whole : NoParent path → IsParted path (returns none)
  too_long :
      (parent name : List ℕ) → Split path parent name → TooLong parent name → IsParted path overrun
  parted :
      (parent name : List ℕ)
      → Split path parent name
      → length parent < vfs_path_max
      → length name < vfs_name_max
      → IsParted path (returns (some (parent, name)))

pub split_path-IsParted : (path : List ℕ) → IsParted path (split_path path)
unfolding split_path
split_path-IsParted [] = whole (inl (omega arith))
split_path-IsParted (c ∷ p) =
    let last = last_slash (c ∷ p) (length (c ∷ p) - 1) in
    let parent = if last == 0 then slash ∷ [] else take last (c ∷ p) in
    let name = drop (suc last) (c ∷ p) in
    elim (Bool-cases (ltb (length (c ∷ p)) 2 || not (c == slash))) [
      | inl bad ↦ rw (split_path, bad) (whole (no_parent bad))
      | inr good ↦
          let split : Split (c ∷ p) parent name =
            parts-Split c p _ _ (omega arith) (ground (arith, good))
              (last_slash-IsLast (c ∷ p) _) in
          elim (Bool-cases (leb vfs_path_max (length parent) || leb vfs_name_max (length name))) [
            | inl long ↦
                rw (split_path, good, long) (too_long parent name split (which parent name long))
            | inr fits ↦
                rw (split_path, good, fits)
                  (parted parent name split (ground (arith, fits)) (ground (arith, fits)))
          ]
    ]
  where
    no_parent : (ltb (length (c ∷ p)) 2 || not (c == slash)) ≡ true → NoParent (c ∷ p)
    no_parent bad = elim (Bool-cases (ltb (length (c ∷ p)) 2)) [
      | inl short ↦ inl (ltb→lt _ _ short)
      | inr long ↦ inr (λ eq. absurd (ground (arith, bad, long, eq)))
    ]

    which :
        (parent name : List ℕ)
        → (leb vfs_path_max (length parent) || leb vfs_name_max (length name)) ≡ true
        → TooLong parent name
    which parent name long = elim (Bool-cases (leb vfs_path_max (length parent))) [
      | inl first ↦ inl (ground (arith, first))
      | inr other ↦ inr (ground (arith, long, other))
    ]

component-whole :
    (n : ℕ) (name : List ℕ) → length name ≤ n → IsPlain name → component n name ≡ (name, [])
unfolding component
component-whole zero [] h plain = refl
component-whole zero (c ∷ name) h plain = absurd (omega arith)
component-whole (suc n) [] h plain = refl
component-whole (suc n) (c ∷ name) h plain =
    rw
      (
        plain 0 (omega arith),
        component-whole n name (omega arith) (λ j lt. plain (suc j) (omega arith)),
      )
      refl

-- A walk along one name is one step.
pub walk-name :
    (t : List VfsInode) (d : ℕ) (name : List ℕ)
    → IsName name
    → walk_path t (length name) d name ≡ dir_find t d name
unfolding skip_slashes
walk-name t d [] h = absurd (omega (arith, h.nonempty))
walk-name t d (c ∷ q) h =
    let e : skip_slashes (c ∷ q) ≡ c ∷ q = rw (h.plain 0 (omega arith)) refl in
    let whole = component-whole 59 (c ∷ q) (omega (arith, h.fits)) h.plain in
    elim (Option-cases (dir_find t d (c ∷ q))) [
      | inl h' ↦ walk-stops t _ d c _ q e (rw whole h') ∙ sym h'
      | inr (next, h') ↦
          walk-round t _ d c _ q e (rw whole h')
          ∙ ap (λ k. walk_path t (length q) next k.1) whole
          ∙ walk-slashes t (length q) next [] skip_slashes-nil
          ∙ sym h'
    ]

-- The step from a directory with the last part of a path.
pub resolve-Split :
    (t : List VfsInode) (path parent name : List ℕ)
    → Split path parent name
    → ramfs_resolve_path t path ≡ walk_on t (ramfs_resolve_path t parent) name
unfolding ramfs_resolve_path walk_on walk_path
resolve-Split t path parent name (in_root e e' plain) = rw (e, e') refl
resolve-Split t path parent name (below p e e' plain) =
    rw (e, e') (walk-append t name _ _ 0 p (omega arith) (omega arith))
