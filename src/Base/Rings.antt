-- ===== src/Base/Rings.antt =====
-- The circular byte buffers of the kernel, as the queue of the bytes between the two positions.
use Prim.Native.Nat.{ℕ, zero, suc, ◌+◌, ◌-◌, ◌%◌, ◌≤◌, ◌<◌}
use mathlib.Core.Path.{◌≡◌, refl, ◌∙◌, ap, ap₂}
use mathlib.Core.Logic.{◌≢◌}
use mathlib.Core.List.{List, [], ◌∷◌, ◌++◌}
use native.Mathlib.Nat.{mod-add-mod, mod-eq_of_lt, mod-eq-sub-mod, add-zero}
use native.Mathlib.Decide.{dec_lt}
use native.Mathlib.Omega.{arith}
use plant_os.Base.Lists.{length, get_or, set, get_or-set}

module _ (buf : List ℕ) (cap : ℕ) where
  -- `n` bytes, read from position `p` on.
  abbrev pub queue : ℕ → ℕ → List ℕ
  queue p zero = []
  queue p (suc n) = get_or buf p 0 ∷ queue ((p + 1) % cap) n

  pub length-queue : (p n : ℕ) → length (queue p n) ≡ n
  length-queue p zero = refl
  length-queue p (suc n) = ap suc (length-queue ((p + 1) % cap) n)

  -- The code counts down where `queue` matches on `suc`.
  pub queue_pos : (p n : ℕ) → n ≢ 0 → queue p n ≡ get_or buf p 0 ∷ queue ((p + 1) % cap) (n - 1)
  queue_pos p zero h = absurd (h refl)
  queue_pos p (suc n) h = ap (λ k. queue p (suc k)) (omega arith)

-- A walk shorter than the buffer does not come back to its start.
walk-ne : (cap p k : ℕ) → p < cap → suc k < cap → (p + suc k) % cap ≢ p
walk-ne cap p k hp hk = elim (dec_lt (p + suc k) cap) [
  | yes in_range ↦ omega (arith, mod-eq_of_lt in_range)
  | no out ↦ omega (
    arith,
    mod-eq-sub-mod {n = p + suc k} {m = cap} (omega arith),
    mod-eq_of_lt {n = p + suc k - cap} {m = cap} (omega arith),
  )
]

-- A byte stored just behind the queue joins its end, if the buffer has room.
pub queue-set :
    (buf : List ℕ) (cap x n p i : ℕ)
    → cap ≤ length buf
    → p < cap
    → n < cap
    → i ≡ (p + n) % cap
    → queue (set buf i x) cap p (suc n) ≡ queue buf cap p n ++ x ∷ []
queue-set buf cap x zero p i hb hp hn e =
    ground (arith, add-zero p, mod-eq_of_lt hp, get_or-set buf p p x 0 (omega arith))
queue-set buf cap x (suc n) p i hb hp hn e =
    ap₂ ◌∷◌ (ground (arith, walk-ne cap p n hp hn, get_or-set buf i p x 0 (rw e (omega arith))))
      (queue-set buf cap x n ((p + 1) % cap) i hb (omega arith) (omega arith) (e ∙ shift))
  where
    shift : (p + suc n) % cap ≡ ((p + 1) % cap + n) % cap
    shift = rw mod-add-mod (ap (λ k. k % cap) (omega arith))
