-- ===== src/Base/Bits.antt =====
-- `|` of disjoint fields and `&` with a low mask are arithmetic, at every width.
use Prim.Native.Nat.{min, max, digits, bit_and-bitwise, bit_or-bitwise}
use native.Mathlib.Nat.{pow-succ', one-le-pow}
use ne.Base.{
  ℕ, zero, suc, ◌+◌, ◌-◌, ◌*◌, ◌/◌, ◌%◌, ◌^◌, ◌≤◌, ◌<◌, ◌≡◌, refl, ap, arith, bit_and, bit_or,
}

-- Fuel above the first number does not matter to the recursion on binary digits.
module _ (base : ℕ → ℕ) (join : ℕ → ℕ → ℕ) where
  any_fuel :
      (x y less more : ℕ)
      → x ≤ less
      → less ≤ more
      → digits base join more x y ≡ digits base join less x y
  any_fuel zero y zero zero h k = refl
  any_fuel zero y zero (suc more) h k = refl
  any_fuel zero y (suc less) zero h k = absurd (omega arith)
  any_fuel zero y (suc less) (suc more) h k = refl
  any_fuel (suc x) y zero more h k = absurd (omega arith)
  any_fuel (suc x) y (suc less) zero h k = absurd (omega arith)
  any_fuel (suc x) y (suc less) (suc more) h k =
      let half = any_fuel (suc x / 2) (y / 2) less more (omega arith) (omega arith) in
      omega (arith, half)

-- One equation for the lowest digit.
bit_or_digit : (x y : ℕ) → bit_or x y ≡ bit_or (x / 2) (y / 2) * 2 + max (x % 2) (y % 2)
bit_or_digit zero y = omega (arith, bit_or-bitwise 0 y, bit_or-bitwise 0 (y / 2))
bit_or_digit (suc x) y =
    let half =
      any_fuel (λ c. c) max (suc x / 2) (y / 2) (suc x / 2) x (omega arith) (omega arith) in
    omega (arith, half, bit_or-bitwise (suc x) y, bit_or-bitwise (suc x / 2) (y / 2))

bit_and_digit : (x y : ℕ) → bit_and x y ≡ bit_and (x / 2) (y / 2) * 2 + min (x % 2) (y % 2)
bit_and_digit zero y = omega (arith, bit_and-bitwise 0 y, bit_and-bitwise 0 (y / 2))
bit_and_digit (suc x) y =
    let half =
      any_fuel (λ c. 0) min (suc x / 2) (y / 2) (suc x / 2) x (omega arith) (omega arith) in
    omega (arith, half, bit_and-bitwise (suc x) y, bit_and-bitwise (suc x / 2) (y / 2))

-- With nothing to join: by recursion on a bound.
bit_or-zero_below : (n a : ℕ) → a ≤ n → bit_or a 0 ≡ a
bit_or-zero_below n zero h = refl
bit_or-zero_below zero (suc a) h = absurd (omega arith)
bit_or-zero_below (suc n) (suc a) h =
    omega (arith, bit_or_digit (suc a) 0, bit_or-zero_below n (suc a / 2) (omega arith))

bit_and-zero_below : (n a : ℕ) → a ≤ n → bit_and a 0 ≡ 0
bit_and-zero_below n zero h = refl
bit_and-zero_below zero (suc a) h = absurd (omega arith)
bit_and-zero_below (suc n) (suc a) h =
    omega (arith, bit_and_digit (suc a) 0, bit_and-zero_below n (suc a / 2) (omega arith))

-- `(hi << k) | lo` is a sum when `lo` has `k` bits.
pub bit_or_fields : (k hi lo : ℕ) → lo < 2 ^ k → bit_or (hi * 2 ^ k) lo ≡ hi * 2 ^ k + lo
bit_or_fields zero hi zero h = ground (arith, bit_or-zero_below hi hi)
bit_or_fields zero hi (suc lo) h = absurd (omega arith)
bit_or_fields (suc k) hi lo h = ground (
  arith,
  bit_or_digit (hi * 2 ^ suc k) lo,
  pow-succ' 2 k,
  ap (λ (t : ℕ). hi * t) (pow-succ' 2 k),
  bit_or_fields k hi (lo / 2),
)

bit_and_low : (k hi lo : ℕ) → lo < 2 ^ k → bit_and (hi * 2 ^ k + lo) (2 ^ k - 1) ≡ lo
bit_and_low zero hi lo h = omega (arith, bit_and-zero_below (hi * 2 ^ 0 + lo) (hi * 2 ^ 0 + lo))
bit_and_low (suc k) hi lo h = ground (
  arith,
  bit_and_digit (hi * 2 ^ suc k + lo) (2 ^ suc k - 1),
  pow-succ' 2 k,
  ap (λ (t : ℕ). hi * t) (pow-succ' 2 k),
  one-le-pow k 2,
  bit_and_low k hi (lo / 2),
)

-- `x & (2^k - 1)` keeps the low `k` bits.
pub bit_and_mask : (k x : ℕ) → bit_and x (2 ^ k - 1) ≡ x % 2 ^ k
bit_and_mask k x = ground (arith, one-le-pow k 2, bit_and_low k (x / 2 ^ k) (x % 2 ^ k))

bit_and-le_below : (n a b : ℕ) → b ≤ n → bit_and a b ≤ b
bit_and-le_below n a zero h = omega (arith, bit_and-zero_below a a (omega arith))
bit_and-le_below zero a (suc b) h = absurd (omega arith)
bit_and-le_below (suc n) a (suc b) h =
    ground (arith, bit_and_digit a (suc b), bit_and-le_below n (a / 2) (suc b / 2) (omega arith))

-- `x & m` is at most the mask.
pub bit_and-le : (x m : ℕ) → bit_and x m ≤ m
bit_and-le x m = bit_and-le_below m x m (omega arith)
