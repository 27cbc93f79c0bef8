-- ===== src/Fs/Ramfs/Entries.antt =====
-- The entries of directories in fs/ramfs.c: what a name leads to after a change of one inode, of the
-- entries of a directory.
use plant_os.Base.{
  ℕ, zero, suc, ◌*◌, ◌<◌, ◌≡◌, refl, sym, ap, ap₂, ◌∙◌, inl, inr, Bool, true, false, ◌&&◌, Option,
  none, some, List, [], ◌∷◌, ◌++◌, length, set, get_or-set, take_all, ◌==◌, ltb, if◌then◌else◌,
  Bool-cases, arith,
}
use mathlib.Core.Option.{none-ne-some}
use plant_os.Kernel.Env.{str_eq}
use plant_os.Kernel.Env.Lookup.{str_eq-eq, str_eq_self}
use plant_os.Fs.Ramfs.{
  VfsDirent, VfsInode, no_inode, inode_at, ramfs_get_inode, vfs_dir, dirent_size, listed, entry_of,
  dir_find,
}
use plant_os.Fs.Ramfs.Calls.{remove_entry}

-- No name twice.
unfoldable pub Distinct : List VfsDirent → Type 0
Distinct [] = ◌≡◌ {A = ℕ} 0 0
Distinct (e ∷ es) = (entry_of es e.name ≡ none) × Distinct es

-- A directory's size counts its entries, which have different names.
pub record IsDir (n : VfsInode) : Type 0 where
  pub sized : n.size ≡ length n.entries * dirent_size
  pub distinct : Distinct n.entries

-- What the name leads to in the inode, if that is a directory.
unfoldable pub leads : VfsInode → List ℕ → Option ℕ
leads n name = if n.used && (n.type == vfs_dir) then entry_of (listed n) name else none

pub used_in_range : (t : List VfsInode) (i : ℕ) → (inode_at t i).used ≡ true → i < length t
used_in_range [] i h = absurd (ground arith)
used_in_range (n ∷ t) zero h = omega arith
used_in_range (n ∷ t) (suc i) h = omega (arith, used_in_range t i h)

pub get_inode-used :
    (t : List VfsInode) (i : ℕ)
    → (inode_at t i).used ≡ true
    → ramfs_get_inode t i ≡ some (inode_at t i)
unfolding ramfs_get_inode
get_inode-used t i h =
    let inside : ltb i (length t) ≡ true = ground (arith, used_in_range t i h) in
    rw (inside, h) refl

pub get_inode-unused :
    (t : List VfsInode) (i : ℕ) → (inode_at t i).used ≡ false → ramfs_get_inode t i ≡ none
unfolding ramfs_get_inode
get_inode-unused t i h = elim (Bool-cases (ltb i (length t))) [
  | inl e ↦ rw (e, h) refl
  | inr e ↦ rw e refl
]

pub dir_find-leads :
    (t : List VfsInode) (i : ℕ) (name : List ℕ) → dir_find t i name ≡ leads (inode_at t i) name
unfolding leads dir_find entry_of
dir_find-leads t i name = elim (Bool-cases (inode_at t i).used) [
  | inl h ↦ rw (dir_find, get_inode-used t i h, h) refl
  | inr h ↦ rw (dir_find, get_inode-unused t i h, h) refl
]

pub listed_all : (n : VfsInode) → IsDir n → listed n ≡ n.entries
listed_all n h = take_all _ n.entries (omega (arith, h.sized))

pub leads-unused : (n : VfsInode) (name : List ℕ) → n.used ≡ false → leads n name ≡ none
unfolding leads
leads-unused n name h = rw h refl

-- After a store to one inode.
pub dir_find-set :
    (t : List VfsInode) (k : ℕ) (n : VfsInode) (i : ℕ) (name : List ℕ)
    → k < length t
    → dir_find (set t k n) i name ≡ (if k == i then leads n name else dir_find t i name)
dir_find-set t k n i name h = dir_find-leads _ i name ∙ elim (Bool-cases (k == i)) [
  | inl e ↦ rw (get_or-set t k i n no_inode h, e) refl
  | inr e ↦ rw (get_or-set t k i n no_inode h, e) (sym (dir_find-leads t i name))
]

str_eq-other : (a b c : List ℕ) → str_eq a b ≡ false → str_eq a c ≡ true → str_eq b c ≡ false
str_eq-other a b c h h' = elim (Bool-cases (str_eq b c)) [
  | inl same ↦
      let ac = str_eq-eq a c h' in
      let bc = str_eq-eq b c same in
      absurd (ground (arith, sym h ∙ ap₂ str_eq ac bc ∙ str_eq_self c))
  | inr other ↦ other
]

str_eq_comm : (a b : List ℕ) → str_eq a b ≡ false → str_eq b a ≡ false
str_eq_comm a b h = str_eq-other a b a h (str_eq_self a)

-- The first entry has another name, and the rest does not have the name.
entry_of-none :
    (x : VfsDirent) (es : List VfsDirent) (name : List ℕ)
    → entry_of (x ∷ es) name ≡ none
    → (str_eq x.name name ≡ false) × (entry_of es name ≡ none)
unfolding entry_of
entry_of-none x es name h = elim (Bool-cases (str_eq x.name name)) [
  | inl e ↦ absurd (none-ne-some _ (sym (rw e at h)))
  | inr e ↦ (e, rw e at h)
]

-- A new entry behind the others.
pub entry_of-append :
    (es : List VfsDirent) (e : VfsDirent) (name : List ℕ)
    → entry_of es e.name ≡ none
    → entry_of (es ++ e ∷ []) name ≡ (if str_eq e.name name then some e.inode else entry_of es name)
unfolding entry_of
entry_of-append [] e name h = refl
entry_of-append (x ∷ es) e name h =
    let (ne, h') = entry_of-none x es e.name h in
    elim (Bool-cases (str_eq x.name name)) [
      | inl here ↦ rw (here, str_eq-other _ _ name ne here) refl
      | inr other ↦ rw other (entry_of-append es e name h')
    ]

pub append-Distinct :
    (es : List VfsDirent) (e : VfsDirent)
    → Distinct es
    → entry_of es e.name ≡ none
    → Distinct (es ++ e ∷ [])
unfolding entry_of Distinct
append-Distinct [] e d h = (refl, refl)
append-Distinct (x ∷ es) e d h =
    let (ne, h') = entry_of-none x es e.name h in
    (rw (entry_of-append es e x.name h', str_eq_comm _ _ ne) d.0, append-Distinct es e d.1 h')

-- Without the first entry of a name.
pub entry_of-remove :
    (es : List VfsDirent) (gone name : List ℕ)
    → Distinct es
    → entry_of (remove_entry es gone) name ≡ (if str_eq gone name then none else entry_of es name)
unfolding entry_of remove_entry Distinct
entry_of-remove [] gone name d = ground arith
entry_of-remove (x ∷ es) gone name d = elim (Bool-cases (str_eq x.name gone)) [
  | inl this ↦
      let same = str_eq-eq x.name gone this in
      rw (this, sym same)
        (elim (Bool-cases (str_eq x.name name)) [
          | inl e ↦ rw (e, sym (str_eq-eq x.name name e)) d.0
          | inr e ↦ rw e refl
        ])
  | inr other ↦ rw other (elim (Bool-cases (str_eq x.name name)) [
    | inl e ↦ rw (e, str_eq-other _ _ name other e) refl
    | inr e ↦ rw e (entry_of-remove es gone name d.1)
  ])
]

pub remove-Distinct :
    (es : List VfsDirent) (gone : List ℕ) → Distinct es → Distinct (remove_entry es gone)
unfolding remove_entry Distinct
remove-Distinct [] gone d = refl
remove-Distinct (x ∷ es) gone d = elim (Bool-cases (str_eq x.name gone)) [
  | inl e ↦ rw e d.1
  | inr e ↦
      rw e (
        rw (entry_of-remove es gone x.name d.1, d.0) (same_branches _),
        remove-Distinct es gone d.1,
      )
]
  where
    same_branches : (b : Bool) → ◌≡◌ {A = Option ℕ} (if b then none else none) none
    same_branches true = refl
    same_branches false = refl

pub length-remove :
    (es : List VfsDirent) (gone : List ℕ) {i : ℕ}
    → entry_of es gone ≡ some i
    → suc (length (remove_entry es gone)) ≡ length es
unfolding remove_entry entry_of
length-remove [] gone e = absurd (none-ne-some _ e)
length-remove (x ∷ es) gone e = elim (Bool-cases (str_eq x.name gone)) [
  | inl h ↦ rw h refl
  | inr h ↦ rw h (ap suc (length-remove es gone (rw h at e)))
]
