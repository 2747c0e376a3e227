-- ===== src/Common/Bits.antt =====
-- `&` on numbers that are not known: its lowest binary digit, and masks.
use Prim.Native.Nat.{
  ℕ, zero, suc, ◌+◌, ◌-◌, ◌*◌, ◌/◌, ◌%◌, ◌^◌, ◌≤◌, ◌<◌, min, bit_and, digits, bit_and-bitwise,
}
use mathlib.Core.Path.{◌≡◌, sym, ap, ◌∙◌}
use native.Mathlib.Nat.{pow-suc, one-le-pow}
use native.Mathlib.Omega.{arith}

-- The recursion on digits that `&` stands for, with at most `rounds` digits.
abbrev conjunction : (rounds x y : ℕ) → ℕ
conjunction rounds x y = digits (λ _. zero) min rounds x y

-- As many rounds as the first number has digits give `&`.
conjunction-bit_and :
    (bound rounds x y : ℕ) → x ≤ bound → x ≤ rounds → conjunction rounds x y ≡ bit_and x y
conjunction-bit_and bound zero zero y small many = sym (bit_and-bitwise 0 y)
conjunction-bit_and bound (suc rounds) zero y small many = sym (bit_and-bitwise 0 y)
conjunction-bit_and bound zero (suc x) y small many = absurd (omega arith)
conjunction-bit_and zero (suc rounds) (suc x) y small many = absurd (omega arith)
conjunction-bit_and (suc bound) (suc rounds) (suc x) y small many =
    let half = suc x / 2 in
    let left = conjunction-bit_and bound rounds half (y / 2) (omega arith) (omega arith) in
    let right = conjunction-bit_and bound x half (y / 2) (omega arith) (omega arith) in
    omega (arith, left, right, bit_and-bitwise (suc x) y)

-- `&` of two numbers is `&` of their halves, with the lesser of the lowest digits behind it.
pub bit_and_step : (x y : ℕ) → bit_and x y ≡ bit_and (x / 2) (y / 2) * 2 + min (x % 2) (y % 2)
bit_and_step zero y = omega (arith, bit_and-bitwise 0 y, bit_and-bitwise 0 (y / 2))
bit_and_step (suc x) y = omega (
  arith,
  conjunction-bit_and (suc x) x (suc x / 2) (y / 2) (omega arith) (omega arith),
  bit_and-bitwise (suc x) y,
)

vanishes : (bound x : ℕ) → x ≤ bound → bit_and x 0 ≡ 0
vanishes bound zero small = bit_and-bitwise 0 0
vanishes zero (suc x) small = absurd (omega arith)
vanishes (suc bound) (suc x) small =
    let halves = vanishes bound (suc x / 2) (omega arith) in
    omega (arith, halves, bit_and_step (suc x) 0)

-- What a mask leaves of a number that is written with a multiple of the power and a rest.
leaves_rest :
    (k x many rest : ℕ) → x ≡ rest + 2 ^ k * many → rest < 2 ^ k → bit_and x (2 ^ k - 1) ≡ rest
leaves_rest zero x many rest split fits =
    let none_left : rest ≡ 0 = omega arith in vanishes x x (omega arith) ∙ sym none_left
leaves_rest (suc k) x many rest split fits =
    let power = pow-suc 2 k in
    let factor : 2 ^ suc k * many ≡ 2 * (2 ^ k * many) =
      omega (arith, ap (λ (t : ℕ). t * many) power) in
    let halves = leaves_rest k (x / 2) many (rest / 2) (omega arith) (omega arith) in
    let mask : (2 ^ suc k - 1) / 2 ≡ 2 ^ k - 1 = omega arith in
    let odd : (2 ^ suc k - 1) % 2 ≡ 1 = omega (arith, one-le-pow k 2) in
    let step = bit_and_step x (2 ^ suc k - 1) in omega (arith, step, ap (bit_and (x / 2)) mask)

-- The mask `2 ^ k - 1` gives the remainder by `2 ^ k`.
pub bit_and_mask : (k x : ℕ) → bit_and x (2 ^ k - 1) ≡ x % 2 ^ k
bit_and_mask k x =
    leaves_rest k x (x / 2 ^ k) (x % 2 ^ k) (ground (arith, one-le-pow k 2))
      (ground (arith, one-le-pow k 2))
