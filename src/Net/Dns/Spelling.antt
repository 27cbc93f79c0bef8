-- ===== src/Net/Dns/Spelling.antt =====
-- The name that labels in wire format spell, of which `dns_encode_name` makes them.
use plant_os.Base.{
  ℕ, zero, suc, ◌≡◌, refl, ap, inl, inr, List, [], ◌∷◌, ◌++◌, length, take, drop, ◌==◌, ==_iff,
  if◌then◌else◌, Bool-cases,
}
use plant_os.Net.Dns.{until_dot, skip_dot}

-- The name with a dot behind its last label.
unfoldable pub dotted : List ℕ → List ℕ
dotted [] = []
dotted (c ∷ []) = if c == 46 then c ∷ [] else c ∷ 46 ∷ []
dotted (c ∷ d ∷ cs) = c ∷ dotted (d ∷ cs)

-- The name that labels in wire format spell, each with a dot behind it; at most `n` labels.
unfoldable pub spelled : ℕ → List ℕ → List ℕ
spelled zero out = []
spelled (suc n) [] = []
spelled (suc n) (len ∷ out) =
    let rest = spelled n (drop len out) in if len == 0 then [] else take len out ++ 46 ∷ rest

pub take-label : (xs ys : List ℕ) → take (length xs) (xs ++ ys) ≡ xs
take-label [] ys = refl
take-label (x ∷ xs) ys = ap (λ l. x ∷ l) (take-label xs ys)

pub drop-label : (xs ys : List ℕ) → drop (length xs) (xs ++ ys) ≡ ys
drop-label [] ys = refl
drop-label (x ∷ xs) ys = drop-label xs ys

-- The first label and the others.
pub dotted-until_dot :
    (c : ℕ) (cs : List ℕ)
    → dotted (c ∷ cs) ≡ (until_dot (c ∷ cs)).0 ++ 46 ∷ dotted (skip_dot (until_dot (c ∷ cs)).1)
unfolding dotted until_dot skip_dot
dotted-until_dot c [] = elim (Bool-cases (c == 46)) [
  | inl e ↦ let dot : c ≡ 46 = (==_iff _ _).0 e in rw dot refl
  | inr e ↦ rw e refl
]
dotted-until_dot c (d ∷ cs) = elim (Bool-cases (c == 46)) [
  | inl e ↦ let dot : c ≡ 46 = (==_iff _ _).0 e in rw dot refl
  | inr e ↦ rw e (ap (λ l. c ∷ l) (dotted-until_dot d cs))
]
