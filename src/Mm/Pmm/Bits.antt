-- ===== src/Mm/Pmm/Bits.antt =====
-- A bit of the bitmap after a bit was set or cleared.
use plant_os.Base.{
  ℕ, zero, suc, ◌+◌, ◌*◌, ◌/◌, ◌%◌, ◌<◌, ◌≡◌, ap, true, false, List, length, length-set, get_or,
  get_or-set, ◌==◌, if◌then◌else◌, arith,
}
use plant_os.Mm.Pmm.{bit, with_bit, without_bit, bitmap_test, bitmap_set, bitmap_clear}

half : (q r : ℕ) → r < 2 → (q * 2 + r) / 2 ≡ q
half q r h = omega arith

low : (q r : ℕ) → r < 2 → (q * 2 + r) % 2 ≡ r
low q r h = omega arith

bit-with_bit : (k b j : ℕ) → bit (with_bit b k) j ≡ (if k == j then true else bit b j)
unfolding bit with_bit
bit-with_bit zero b zero = ground arith
bit-with_bit zero b (suc j) = ground (arith, ap (λ q. bit q j) (half (b / 2) 1 (omega arith)))
bit-with_bit (suc k) b zero = ground arith
bit-with_bit (suc k) b (suc j) =
    rw (half (with_bit (b / 2) k) (b % 2) (omega arith)) (ground (arith, bit-with_bit k (b / 2) j))

bit-without_bit : (k b j : ℕ) → bit (without_bit b k) j ≡ (if k == j then false else bit b j)
unfolding bit without_bit
bit-without_bit zero b zero = ground arith
bit-without_bit zero b (suc j) =
    let e : b / 2 * 2 / 2 ≡ b / 2 = omega arith in ground (arith, ap (λ q. bit q j) e)
bit-without_bit (suc k) b zero = ground arith
bit-without_bit (suc k) b (suc j) =
    rw (half (without_bit (b / 2) k) (b % 2) (omega arith))
      (ground (arith, bit-without_bit k (b / 2) j))

pub bitmap_test-set :
    (bitmap : List ℕ) (p q : ℕ)
    → p / 8 < length bitmap
    → bitmap_test (bitmap_set bitmap p) q ≡ (if p == q then true else bitmap_test bitmap q)
unfolding bitmap_test bitmap_set
bitmap_test-set bitmap p q h = ground (
  arith,
  get_or-set bitmap (p / 8) (q / 8) (with_bit (get_or bitmap (p / 8) 0) (p % 8)) 0 h,
  bit-with_bit (p % 8) (get_or bitmap (p / 8) 0) (q % 8),
)

pub bitmap_test-clear :
    (bitmap : List ℕ) (p q : ℕ)
    → p / 8 < length bitmap
    → bitmap_test (bitmap_clear bitmap p) q ≡ (if p == q then false else bitmap_test bitmap q)
unfolding bitmap_test bitmap_clear
bitmap_test-clear bitmap p q h = ground (
  arith,
  get_or-set bitmap (p / 8) (q / 8) (without_bit (get_or bitmap (p / 8) 0) (p % 8)) 0 h,
  bit-without_bit (p % 8) (get_or bitmap (p / 8) 0) (q % 8),
)

pub length-bitmap_set : (bitmap : List ℕ) (p : ℕ) → length (bitmap_set bitmap p) ≡ length bitmap
unfolding bitmap_set
length-bitmap_set bitmap p = length-set bitmap _ _

pub length-bitmap_clear : (bitmap : List ℕ) (p : ℕ) → length (bitmap_clear bitmap p) ≡ length bitmap
unfolding bitmap_clear
length-bitmap_clear bitmap p = length-set bitmap _ _
