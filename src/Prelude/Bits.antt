-- ===== src/Prelude/Bits.antt =====
-- Facts about `bit_and` at variables: a mask of k ones keeps the remainder modulo 2 ^ k.
use Prim.Native.Nat.{
  ℕ, zero, suc, ◌+◌, ◌-◌, ◌*◌, ◌/◌, ◌%◌, ◌^◌, ◌≤◌, ◌<◌, min, bit_and, digits, bit_and-bitwise, ◌∣◌,
}
use mathlib.Core.Bool.{Bool, true, ◌&&◌}
use mathlib.Core.Logic.{◌⊎◌, inl, inr}
use mathlib.Core.Path.{◌≡◌, refl, subst, ap, sym, ◌∙◌}
use native.Mathlib.Nat.{
  mul-one, div-one, div-div-eq-div-mul, dvd_refl, one-dvd, dvd-mul_right_of_dvd, pow-suc,
  mod-mod_of_dvd, mod-lt, mod-eq_of_lt, mod-add-div', add-mul-mod_self_right,
}
use mentor_pi_ros.Prelude.Tests.{◌==◌, ◌!=◌}
use native.Mathlib.Omega.{arith}

-- The digits that `bit_and` computes, on a count of digits to go.
abbrev shared_digits : ℕ → ℕ → ℕ → ℕ
shared_digits count x y = digits (λ _. 0) min count x y

shared_digits-none : (count y : ℕ) → shared_digits count 0 y ≡ 0
shared_digits-none zero y = refl
shared_digits-none (suc count) y = refl

shared_digits-mask : (count x : ℕ) → shared_digits count x 0 ≡ 0
shared_digits-mask zero x = refl
shared_digits-mask (suc count) zero = refl
shared_digits-mask (suc count) (suc x) = omega (arith, shared_digits-mask count (suc x / 2))

-- Any two counts that suffice agree.
shared_digits-agree : (c d x y : ℕ) → x ≤ min c d → shared_digits c x y ≡ shared_digits d x y
shared_digits-agree c d zero y h = shared_digits-none c y ∙ sym (shared_digits-none d y)
shared_digits-agree zero d (suc x) y h = absurd (omega (arith, h))
shared_digits-agree (suc c) zero (suc x) y h = absurd (omega (arith, h))
shared_digits-agree (suc c) (suc d) (suc x) y h =
    ap (λ t. t * 2 + min (suc x % 2) (y % 2))
      (shared_digits-agree c d (suc x / 2) (y / 2) (omega (arith, h)))

pub bit_and-halves : (x y : ℕ) → bit_and x y ≡ 2 * bit_and (x / 2) (y / 2) + min (x % 2) (y % 2)
bit_and-halves zero y = bit_and-bitwise 0 y ∙ omega (arith, bit_and-bitwise (0 / 2) (y / 2))
bit_and-halves (suc x) y =
    let half = suc x / 2 in
    omega (
      arith,
      shared_digits-agree x half half (y / 2) (omega arith),
      bit_and-bitwise half (y / 2),
      bit_and-bitwise (suc x) y,
    )

pub bit_and-zero : (x : ℕ) → bit_and x 0 ≡ 0
bit_and-zero x = bit_and-bitwise x 0 ∙ shared_digits-mask x x

pub bit_and-one : (x : ℕ) → bit_and x 1 ≡ x % 2
bit_and-one x = omega (arith, bit_and-zero (x / 2), bit_and-halves x 1)

pub pow-pos : (exponent : ℕ) → 0 < 2 ^ exponent
pow-pos zero = omega arith
pow-pos (suc exponent) = omega (arith, pow-pos exponent, pow-suc 2 exponent)

power_doubles : (k : ℕ) → 2 ^ suc k ≡ 2 * 2 ^ k
power_doubles k = omega (arith, pow-suc 2 k)

-- One more digit of a remainder.
mod-doubled : (x modulus : ℕ) → 0 < modulus → 2 * (x / 2 % modulus) + x % 2 ≡ x % (2 * modulus)
mod-doubled x modulus some =
    let rest = 2 * (x / 2 % modulus) + x % 2 in
    let below : rest < 2 * modulus = omega (arith, mod-lt (x / 2) some) in
    let split : rest + x / 2 / modulus * (2 * modulus) ≡ x =
      omega (arith, mod-add-div' (x / 2) modulus) in
    sym (mod-eq_of_lt below)
    ∙ sym (add-mul-mod_self_right rest (x / 2 / modulus) (2 * modulus))
    ∙ ap (λ t. t % (2 * modulus)) split

-- A mask of k ones keeps the lowest k digits.
pub bit_and-ones : (k x : ℕ) → bit_and x (2 ^ k - 1) ≡ x % 2 ^ k
bit_and-ones zero x = omega (arith, bit_and-zero x)
bit_and-ones (suc k) x =
    let ones : (2 ^ suc k - 1) / 2 ≡ 2 ^ k - 1 = omega (arith, pow-pos k, power_doubles k) in
    bit_and-halves x (2 ^ suc k - 1)
    ∙ ap (λ t. 2 * bit_and (x / 2) t + min (x % 2) ((2 ^ suc k - 1) % 2)) ones
    ∙ omega (
      arith,
      bit_and-ones k (x / 2),
      mod-doubled x (2 ^ k) (pow-pos k),
      ap (λ t. x % t) (power_doubles k),
      power_doubles k,
      pow-pos k,
    )

power_divides : (n k : ℕ) → k ≤ n → 2 ^ k ∣ 2 ^ n
power_divides n zero h = one-dvd (2 ^ n)
power_divides zero (suc k) h = absurd (omega (arith, h))
power_divides (suc n) (suc k) h = elim (last_or_before k n (omega (arith, h))) [
  | inl same ↦ subst (λ t. 2 ^ suc k ∣ 2 ^ suc t) same (dvd_refl (2 ^ suc k))
  | inr below ↦
      rw (pow-suc 2 n) (dvd-mul_right_of_dvd (2 ^ suc k) (power_divides n (suc k) below) 2)
]
  where
    last_or_before : (a b : ℕ) → a ≤ b → (a ≡ b) ⊎ (a < b)
    last_or_before a b le = ground (arith, le)

-- Wrapping to 32 bits leaves the lowest k digits as they were.
pub mod-mod_pow : (k n : ℕ) → k ≤ 32 → n % 2 ^ 32 % 2 ^ k ≡ n % 2 ^ k
mod-mod_pow k n short = mod-mod_of_dvd (2 ^ k) n (power_divides 32 k short)

-- A test that passes at every number under a literal bound.
unfoldable pub passes_below : (ℕ → Bool) → ℕ → Bool
passes_below test zero = true
passes_below test (suc bound) = passes_below test bound && test bound

pub passes_below_sound :
    (test : ℕ → Bool) (bound n : ℕ) → n < bound → passes_below test bound ≡ true → test n ≡ true
unfolding passes_below
passes_below_sound test zero n less all = absurd (omega (arith, less))
passes_below_sound test (suc bound) n less all = ground (arith, passes_below_sound test bound n)

-- A shifted mask reads the shifted number.
pub bit_and-shifted : (k a b : ℕ) → bit_and a (b * 2 ^ k) ≡ bit_and (a / 2 ^ k) b * 2 ^ k
bit_and-shifted zero a b =
    ap (λ t. bit_and a t) (mul-one b) ∙ ap (λ t. bit_and t b) (sym (div-one a)) ∙ sym (mul-one _)
bit_and-shifted (suc k) a b =
    ap (λ t. bit_and a t) twice_times
    ∙ lowest
    ∙ ap (λ t. t * 2) (bit_and-shifted k (a / 2) b)
    ∙ ap (λ t. bit_and t b * 2 ^ k * 2) (div-div-eq-div-mul a 2 (2 ^ k))
    ∙ ap (λ t. bit_and (a / t) b * 2 ^ k * 2) (sym (power_doubles k))
    ∙ regroup (bit_and (a / 2 ^ suc k) b)
  where
    regroup : (n : ℕ) → n * 2 ^ k * 2 ≡ n * 2 ^ suc k
    regroup n = omega (arith, ap (λ t. n * t) (pow-suc 2 k))

    twice_times : b * 2 ^ suc k ≡ b * 2 ^ k * 2
    twice_times = sym (regroup b)

    half : b * 2 ^ k * 2 / 2 ≡ b * 2 ^ k
    half = omega arith

    lowest : bit_and a (b * 2 ^ k * 2) ≡ bit_and (a / 2) (b * 2 ^ k) * 2
    lowest = omega (arith, bit_and-halves a (b * 2 ^ k * 2), ap (λ t. bit_and (a / 2) t) half)

-- `(mask & (1U << index)) != 0U`.
abbrev pub selects : ℕ → ℕ → Bool
selects mask index = bit_and mask (2 ^ index) != 0

pub bit_and-pow : (k a : ℕ) → bit_and a (2 ^ k) ≡ a / 2 ^ k % 2 * 2 ^ k
bit_and-pow k a = omega (
  arith,
  bit_and-shifted k a 1,
  bit_and-one (a / 2 ^ k),
  ap (λ t. t * 2 ^ k) (bit_and-one (a / 2 ^ k)),
  ap (λ t. bit_and a t) one_times,
)
  where
    one_times : 1 * 2 ^ k ≡ 2 ^ k
    one_times = omega arith

pub selects-eq : (k a : ℕ) → selects a k ≡ (a / 2 ^ k % 2 == 1)
selects-eq k a = ground (arith, bit_and-pow k a, pow-pos k)
