-- ===== src/Base/Bits.antt =====
-- Bits of native numbers: the recursion on the lowest digit, masks of low bits, and a word with
-- disjoint fields.
use Prim.Native.Nat.{ℕ, zero, suc, ◌+◌, ◌-◌, ◌*◌, ◌/◌, ◌%◌, ◌^◌, ◌≤◌, ◌<◌, min, max}
use Prim.Native.Nat.{bit_and, bit_or, digits, bitwise, bit_and-bitwise, bit_or-bitwise}
use mathlib.Core.Path.{◌≡◌, refl, ap}
use mathlib.Core.Bool.{Bool, true, ◌&&◌}
use native.Mathlib.Nat.{le_refl, pow-suc, one-le-pow}
use native.Mathlib.Omega.{arith}

module _ (rest : ℕ → ℕ) (op : ℕ → ℕ → ℕ) where
  -- More fuel than the first number changes nothing.
  enough_fuel :
      (fuel more x y : ℕ)
      → x ≤ fuel
      → fuel ≤ more
      → digits rest op more x y ≡ digits rest op fuel x y
  enough_fuel zero zero x y enough further = refl
  enough_fuel zero (suc more) zero y enough further = refl
  enough_fuel zero (suc more) (suc x) y enough further = absurd (omega arith)
  enough_fuel (suc fuel) zero x y enough further = absurd (omega arith)
  enough_fuel (suc fuel) (suc more) zero y enough further = refl
  enough_fuel (suc fuel) (suc more) (suc x) y enough further =
      ap (λ high. high * 2 + op (suc x % 2) (y % 2))
        (enough_fuel fuel more (suc x / 2) (y / 2) (omega arith) (omega arith))

  lowest_digit :
      (x y : ℕ)
      → bitwise rest op (suc x) y ≡ op (suc x % 2) (y % 2) + bitwise rest op (suc x / 2) (y / 2) * 2
  lowest_digit x y =
      omega (arith, enough_fuel (suc x / 2) x (suc x / 2) (y / 2) (le_refl _) (omega arith))

pub bit_and_step : (x y : ℕ) → bit_and x y ≡ min (x % 2) (y % 2) + bit_and (x / 2) (y / 2) * 2
bit_and_step zero y = simp bit_and-bitwise (omega arith)
bit_and_step (suc x) y = simp bit_and-bitwise (lowest_digit (λ _. 0) min x y)

pub bit_or_step : (x y : ℕ) → bit_or x y ≡ max (x % 2) (y % 2) + bit_or (x / 2) (y / 2) * 2
bit_or_step zero y = simp bit_or-bitwise (omega arith)
bit_or_step (suc x) y = simp bit_or-bitwise (lowest_digit (λ v. v) max x y)

-- A half at a time, on fuel.
bits_of_zero : (fuel x : ℕ) → x ≤ fuel → (bit_and x 0 ≡ 0) × (bit_or x 0 ≡ x)
bits_of_zero fuel zero enough = (refl, refl)
bits_of_zero zero (suc x) enough = absurd (omega arith)
bits_of_zero (suc fuel) (suc x) enough =
    let (both, either) = bits_of_zero fuel (suc x / 2) (omega arith) in
    (omega (arith, bit_and_step (suc x) 0, both), omega (arith, bit_or_step (suc x) 0, either))

pub bit_and-zero : (x : ℕ) → bit_and x 0 ≡ 0
bit_and-zero x = (bits_of_zero x x (le_refl x)).0

pub bit_or-zero : (x : ℕ) → bit_or x 0 ≡ x
bit_or-zero x = (bits_of_zero x x (le_refl x)).1

shifted_field : (w v : ℕ) → v * 2 ^ suc w ≡ 2 * (v * 2 ^ w)
shifted_field w v = omega (arith, ap (λ (t : ℕ). v * t) (pow-suc 2 w))

-- `(v << w) | low` is a sum when `low` fits `w` bits.
pub bit_or_fields : (w v low : ℕ) → low < 2 ^ w → bit_or (v * 2 ^ w) low ≡ v * 2 ^ w + low
bit_or_fields zero v low fits = ground (arith, bit_or-zero v)
bit_or_fields (suc w) v low fits =
    let half : low / 2 < 2 ^ w = omega (arith, pow-suc 2 w) in
    ground
      (bit_or_fields w v (low / 2) half, shifted_field w v, bit_or_step (v * 2 ^ suc w) low, arith)

masked_field : (w v low : ℕ) → low < 2 ^ w → bit_and (v * 2 ^ w + low) (2 ^ w - 1) ≡ low
masked_field zero v low fits = omega (arith, bit_and-zero (v * 2 ^ zero + low))
masked_field (suc w) v low fits =
    let half : low / 2 < 2 ^ w = omega (arith, pow-suc 2 w) in
    ground (
      masked_field w v (low / 2) half,
      shifted_field w v,
      one-le-pow w 2,
      pow-suc 2 w,
      bit_and_step (v * 2 ^ suc w + low) (2 ^ suc w - 1),
      arith,
    )

-- A mask of `w` low bits is the remainder by `2 ^ w`.
pub bit_and_mask : (w x : ℕ) → bit_and x (2 ^ w - 1) ≡ x % 2 ^ w
bit_and_mask w x = ground (arith, masked_field w (x / 2 ^ w) (x % 2 ^ w), one-le-pow w 2)

-- Over a small range, a test is checked at every value by evaluation.
unfoldable pub every_below : (ℕ → Bool) → ℕ → Bool
every_below test zero = true
every_below test (suc top) = every_below test top && test top

pub every_below-holds :
    (test : ℕ → Bool) (top : ℕ) → every_below test top ≡ true → (v : ℕ) → v < top → test v ≡ true
unfolding every_below
every_below-holds test zero all v small = absurd (omega arith)
every_below-holds test (suc top) all v small = ground (
  arith,
  λ (e : every_below test top ≡ true) (small : v < top). every_below-holds test top e v small,
)

zero-bit_or : (b : ℕ) → bit_or 0 b ≡ b
zero-bit_or b = simp bit_or-bitwise (omega arith)

bit_or_comm_fuel : (n a b : ℕ) → a ≤ n → bit_or a b ≡ bit_or b a
bit_or_comm_fuel n zero b h = omega (arith, zero-bit_or b, bit_or-zero b)
bit_or_comm_fuel zero (suc a) b h = absurd (omega arith)
bit_or_comm_fuel (suc n) (suc a) b h = omega (
  arith,
  bit_or_step (suc a) b,
  bit_or_step b (suc a),
  bit_or_comm_fuel n (suc a / 2) (b / 2) (omega arith),
)

pub bit_or_comm : (a b : ℕ) → bit_or a b ≡ bit_or b a
bit_or_comm a b = bit_or_comm_fuel a a b (le_refl a)
