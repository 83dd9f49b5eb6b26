-- ===== src/Prelude/Unions.antt =====
-- Facts about `bit_or` at variables: which bits a union of masks selects.
use Prim.Native.Nat.{
  ℕ, zero, suc, ◌+◌, ◌*◌, ◌/◌, ◌%◌, ◌^◌, ◌≤◌, min, max, bit_or, digits, bit_or-bitwise,
}
use mathlib.Core.Bool.{false, ◌||◌}
use mathlib.Core.Path.{◌≡◌, refl, ap, sym, ◌∙◌}
use native.Mathlib.Nat.{div-div-eq-div-mul, div-one, pow-suc, zero-div}
use native.Mathlib.Omega.{arith}
use mentor_pi_ros.Prelude.Tests.{◌==◌, if◌then◌else◌}
use mentor_pi_ros.Prelude.Bits.{selects, selects-eq}

abbrev joined_digits : ℕ → ℕ → ℕ → ℕ
joined_digits count x y = digits (λ b. b) max count x y

joined_digits-none : (count y : ℕ) → joined_digits count 0 y ≡ y
joined_digits-none zero y = refl
joined_digits-none (suc count) y = refl

joined_digits-agree : (c d x y : ℕ) → x ≤ min c d → joined_digits c x y ≡ joined_digits d x y
joined_digits-agree c d zero y h = joined_digits-none c y ∙ sym (joined_digits-none d y)
joined_digits-agree zero d (suc x) y h = absurd (omega (arith, h))
joined_digits-agree (suc c) zero (suc x) y h = absurd (omega (arith, h))
joined_digits-agree (suc c) (suc d) (suc x) y h =
    ap (λ t. t * 2 + max (suc x % 2) (y % 2))
      (joined_digits-agree c d (suc x / 2) (y / 2) (omega (arith, h)))

pub bit_or-zero_left : (y : ℕ) → bit_or 0 y ≡ y
bit_or-zero_left y = bit_or-bitwise 0 y

pub bit_or-halves : (x y : ℕ) → bit_or x y ≡ 2 * bit_or (x / 2) (y / 2) + max (x % 2) (y % 2)
bit_or-halves zero y = bit_or-zero_left y ∙ omega (arith, bit_or-zero_left (y / 2))
bit_or-halves (suc x) y =
    let half = suc x / 2 in
    omega (
      arith,
      joined_digits-agree x half half (y / 2) (omega arith),
      bit_or-bitwise half (y / 2),
      bit_or-bitwise (suc x) y,
    )

abbrev digit : ℕ → ℕ → ℕ
digit k x = x / 2 ^ k % 2

digit-zero : (x : ℕ) → digit 0 x ≡ x % 2
digit-zero x = ap (λ t. t % 2) (div-one x)

digit-suc : (k x : ℕ) → digit (suc k) x ≡ digit k (x / 2)
digit-suc k x =
    let factor : 2 ^ suc k ≡ 2 * 2 ^ k = omega (arith, pow-suc 2 k) in
    ap (λ t. x / t % 2) factor ∙ sym (ap (λ t. t % 2) (div-div-eq-div-mul x 2 (2 ^ k)))

-- A digit of a union is the larger of the two digits.
digit-bit_or : (k x y : ℕ) → digit k (bit_or x y) ≡ max (digit k x) (digit k y)
digit-bit_or zero x y =
    omega (arith, bit_or-halves x y, digit-zero x, digit-zero y, digit-zero (bit_or x y))
digit-bit_or (suc k) x y =
    let half : bit_or x y / 2 ≡ bit_or (x / 2) (y / 2) = omega (arith, bit_or-halves x y) in
    omega (
      arith,
      digit-suc k x,
      digit-suc k y,
      digit-suc k (bit_or x y) ∙ ap (λ t. digit k t) half,
      digit-bit_or k (x / 2) (y / 2),
    )

digit-pow : (k i : ℕ) → digit k (2 ^ i) ≡ (if i == k then 1 else 0)
digit-pow zero zero = refl
digit-pow zero (suc i) = ground (arith, digit-zero (2 ^ suc i), pow-suc 2 i)
digit-pow (suc k) zero = ground (arith, digit-suc k 1, digit-none k)
  where
    digit-none : (n : ℕ) → digit n 0 ≡ 0
    digit-none n = omega (arith)
digit-pow (suc k) (suc i) =
    let half : 2 ^ suc i / 2 ≡ 2 ^ i = omega (arith, pow-suc 2 i) in
    digit-suc k (2 ^ suc i) ∙ ap (λ t. digit k t) half ∙ ground (arith, digit-pow k i)

pub selects-bit_or : (k x y : ℕ) → selects (bit_or x y) k ≡ (selects x k || selects y k)
selects-bit_or k x y = rw (selects-eq, selects-eq, selects-eq) (ground (arith, digit-bit_or k x y))

pub selects-pow : (i k : ℕ) → selects (2 ^ i) k ≡ (i == k)
selects-pow i k = rw selects-eq (ground (arith, digit-pow k i))

pub selects-none : (k : ℕ) → selects 0 k ≡ false
selects-none k = rw selects-eq (ground (arith, zero-div (2 ^ k)))

joined_nothing : (bound x y : ℕ) → x ≤ bound → bit_or x y ≡ 0 → (x ≡ 0) × (y ≡ 0)
joined_nothing bound zero y le e = (refl, omega (arith, bit_or-zero_left y, e))
joined_nothing zero (suc x) y le e = absurd (omega arith)
joined_nothing (suc bound) (suc x) y le e =
    let half : bit_or (suc x / 2) (y / 2) ≡ 0 = omega (arith, bit_or-halves (suc x) y) in
    omega
      (arith, bit_or-halves (suc x) y, joined_nothing bound (suc x / 2) (y / 2) (omega arith) half)

-- A union with no bit at all joins two masks that have none.
pub bit_or-eq_zero : (x y : ℕ) → bit_or x y ≡ 0 → (x ≡ 0) × (y ≡ 0)
bit_or-eq_zero x y e = joined_nothing x x y (omega arith) e
