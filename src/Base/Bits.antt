-- ===== src/Base/Bits.antt =====
-- Bit operations of unsigned words: notation, and the laws that the drivers need.
use Prim.Native.Nat.{
  ℕ, zero, suc, ◌+◌, ◌-◌, ◌*◌, ◌/◌, ◌%◌, ◌^◌, ◌≤◌, ◌<◌, min, max, bit_and, bit_or, digits, bitwise,
  bit_and-bitwise, bit_or-bitwise, bit_xor, differ, bit_xor-bitwise,
}
use mathlib.Core.Path.{◌≡◌, refl, ap, ◌∙◌}
use mathlib.Core.Bool.{Bool}
use native.Mathlib.Omega.{arith}
use native.Mathlib.Nat.{pow-suc, one-le-pow}
use mrs_fpga_toolkit.Base.Tests.{◌==◌, ◌!=◌}

-- `~x` of a `uint32_t`
abbrev pub not32 : ℕ → ℕ
not32 x = 0xffffffff - x

abbrev pub u8 : ℕ → ℕ
u8 x = x % 0x100

abbrev pub u16 : ℕ → ℕ
u16 x = x % 0x10000

abbrev pub u32 : ℕ → ℕ
u32 x = x % 0x100000000

abbrev pub u64 : ℕ → ℕ
u64 x = x % 0x10000000000000000

-- `(x & mask) != 0`
abbrev pub any_bit : ℕ → ℕ → Bool
any_bit x mask = bit_and x mask != 0

-- The native operations are given by `digits`, which spends fuel on each binary digit. Any fuel
-- that is at least the first number gives the same result.
module _ (rest : ℕ → ℕ) (join : ℕ → ℕ → ℕ) where
  digits_enough :
      (fuel more x y : ℕ)
      → x ≤ fuel
      → x ≤ more
      → digits rest join fuel x y ≡ digits rest join more x y
  digits_enough zero more zero y h k =
      elim more as (λ m. digits rest join zero zero y ≡ digits rest join m zero y) [
        | zero ↦ refl
        | suc _ ↦ refl
      ]
  digits_enough (suc fuel) more zero y h k =
      elim more as (λ m. digits rest join (suc fuel) zero y ≡ digits rest join m zero y) [
        | zero ↦ refl
        | suc _ ↦ refl
      ]
  digits_enough zero more (suc x) y h k = absurd (omega arith)
  digits_enough (suc fuel) zero (suc x) y h k = absurd (omega arith)
  digits_enough (suc fuel) (suc more) (suc x) y h k =
      let half = suc x / 2 in
      omega (arith, digits_enough fuel more half (y / 2) (omega arith) (omega arith))

  lowest_digit :
      (x y : ℕ)
      → bitwise rest join (suc x) y
        ≡ bitwise rest join (suc x / 2) (y / 2) * 2 + join (suc x % 2) (y % 2)
  lowest_digit x y =
      omega (arith, digits_enough x (suc x / 2) (suc x / 2) (y / 2) (omega arith) (omega arith))

pub bit_or_step : (x y : ℕ) → bit_or x y ≡ bit_or (x / 2) (y / 2) * 2 + max (x % 2) (y % 2)
bit_or_step zero y = omega (arith, bit_or-bitwise 0 y, bit_or-bitwise 0 (y / 2))
bit_or_step (suc x) y = omega (
  arith,
  bit_or-bitwise (suc x) y,
  bit_or-bitwise (suc x / 2) (y / 2),
  lowest_digit (λ r. r) max x y,
)

pub bit_and_step : (x y : ℕ) → bit_and x y ≡ bit_and (x / 2) (y / 2) * 2 + min (x % 2) (y % 2)
bit_and_step zero y = omega (arith, bit_and-bitwise 0 y, bit_and-bitwise 0 (y / 2))
bit_and_step (suc x) y = omega (
  arith,
  bit_and-bitwise (suc x) y,
  bit_and-bitwise (suc x / 2) (y / 2),
  lowest_digit (λ r. 0) min x y,
)

differ_digits : (a b : ℕ) → a < 2 → b < 2 → differ a b ≡ (a + b) % 2
differ_digits zero b h k = omega arith
differ_digits (suc zero) zero h k = refl
differ_digits (suc zero) (suc zero) h k = refl
differ_digits (suc zero) (suc (suc b)) h k = absurd (omega arith)
differ_digits (suc (suc a)) b h k = absurd (omega arith)

pub bit_xor_step : (x y : ℕ) → bit_xor x y ≡ bit_xor (x / 2) (y / 2) * 2 + (x % 2 + y % 2) % 2
bit_xor_step zero y = omega (arith, bit_xor-bitwise 0 y, bit_xor-bitwise 0 (y / 2))
bit_xor_step (suc x) y = omega (
  arith,
  bit_xor-bitwise (suc x) y,
  bit_xor-bitwise (suc x / 2) (y / 2),
  lowest_digit (λ r. r) differ x y,
  differ_digits (suc x % 2) (y % 2) (omega arith) (omega arith),
)

-- The bit at place `k`.
abbrev pub bit_at : ℕ → ℕ → ℕ
bit_at zero x = x % 2
bit_at (suc k) x = bit_at k (x / 2)

pub bit_at-lt : (k x : ℕ) → bit_at k x < 2
bit_at-lt zero x = omega arith
bit_at-lt (suc k) x = bit_at-lt k (x / 2)

pub bit_at-bit_and : (k a b : ℕ) → bit_at k (bit_and a b) ≡ min (bit_at k a) (bit_at k b)
bit_at-bit_and zero a b = omega (arith, bit_and_step a b)
bit_at-bit_and (suc k) a b = ap (bit_at k) half ∙ bit_at-bit_and k (a / 2) (b / 2)
  where
    half : bit_and a b / 2 ≡ bit_and (a / 2) (b / 2)
    half = omega (arith, bit_and_step a b)

pub bit_at-bit_or : (k a b : ℕ) → bit_at k (bit_or a b) ≡ max (bit_at k a) (bit_at k b)
bit_at-bit_or zero a b = omega (arith, bit_or_step a b)
bit_at-bit_or (suc k) a b = ap (bit_at k) half ∙ bit_at-bit_or k (a / 2) (b / 2)
  where
    half : bit_or a b / 2 ≡ bit_or (a / 2) (b / 2)
    half = omega (arith, bit_or_step a b)

pub bit_at-bit_xor : (k a b : ℕ) → bit_at k (bit_xor a b) ≡ (bit_at k a + bit_at k b) % 2
bit_at-bit_xor zero a b = omega (arith, bit_xor_step a b)
bit_at-bit_xor (suc k) a b = ap (bit_at k) half ∙ bit_at-bit_xor k (a / 2) (b / 2)
  where
    half : bit_xor a b / 2 ≡ bit_xor (a / 2) (b / 2)
    half = omega (arith, bit_xor_step a b)

pub bit_at-zero : (k : ℕ) → bit_at k 0 ≡ 0
bit_at-zero zero = refl
bit_at-zero (suc k) = bit_at-zero k

pub zero-bit_and : (y : ℕ) → bit_and 0 y ≡ 0
zero-bit_and y = bit_and-bitwise 0 y

pub zero-bit_or : (y : ℕ) → bit_or 0 y ≡ y
zero-bit_or y = bit_or-bitwise 0 y

bit_or-zero_below : (n x : ℕ) → x ≤ n → bit_or x 0 ≡ x
bit_or-zero_below n zero h = zero-bit_or 0
bit_or-zero_below zero (suc x) h = absurd (omega arith)
bit_or-zero_below (suc n) (suc x) h =
    omega (arith, bit_or_step (suc x) 0, bit_or-zero_below n (suc x / 2) (omega arith))

pub bit_or-zero : (x : ℕ) → bit_or x 0 ≡ x
bit_or-zero x = bit_or-zero_below x x (omega arith)

bit_and-zero_below : (n x : ℕ) → x ≤ n → bit_and x 0 ≡ 0
bit_and-zero_below n zero h = zero-bit_and 0
bit_and-zero_below zero (suc x) h = absurd (omega arith)
bit_and-zero_below (suc n) (suc x) h =
    omega (arith, bit_and_step (suc x) 0, bit_and-zero_below n (suc x / 2) (omega arith))

pub bit_and-zero : (x : ℕ) → bit_and x 0 ≡ 0
bit_and-zero x = bit_and-zero_below x x (omega arith)

pow_pos : (k : ℕ) → 1 ≤ 2 ^ k
pow_pos k = one-le-pow k 2 (omega arith)

-- `2 ^ (k + 1)` times a number is twice `2 ^ k` times it.
pub double_pow : (x k : ℕ) → x * 2 ^ suc k ≡ 2 * (x * 2 ^ k)
double_pow x k = omega (arith, ap (λ (t : ℕ). x * t) (pow-suc 2 k))

-- `(high << k) | low` of fields that do not overlap is their sum.
pub bit_or_join : (k high low : ℕ) → low < 2 ^ k → bit_or (high * 2 ^ k) low ≡ high * 2 ^ k + low
bit_or_join zero high low h =
    let e : low ≡ 0 = omega arith in rw e (omega (arith, bit_or-zero (high * 1)))
bit_or_join (suc k) high low h =
    let twice = double_pow high k in
    let halved : high * 2 ^ suc k / 2 ≡ high * 2 ^ k = omega (arith, twice) in
    let fits : low / 2 < 2 ^ k = omega (arith, pow-suc 2 k) in
    let rest = bit_or_join k high (low / 2) fits in
    omega (
      arith,
      bit_or_step (high * 2 ^ suc k) low,
      ap (λ (t : ℕ). bit_or t (low / 2)) halved,
      rest,
      twice,
    )

mod-double : (x m : ℕ) → 1 ≤ m → x % (m * 2) ≡ (x / 2) % m * 2 + x % 2
mod-double x m h = grind arith

-- `x & (2 ^ k - 1)` is the remainder.
pub bit_and_low : (k x : ℕ) → bit_and x (2 ^ k - 1) ≡ x % 2 ^ k
bit_and_low zero x = omega (arith, bit_and-zero x)
bit_and_low (suc k) x =
    let halved : (2 ^ suc k - 1) / 2 ≡ 2 ^ k - 1 = omega (arith, pow-suc 2 k, pow_pos k) in
    omega (
      arith,
      bit_and_step x (2 ^ suc k - 1),
      ap (λ (t : ℕ). bit_and (x / 2) t) halved,
      bit_and_low k (x / 2),
      pow_pos k,
      pow-suc 2 k,
      mod-double x (2 ^ k) (pow_pos k),
      ap (λ (t : ℕ). x % t) (pow-suc 2 k),
    )

-- `x & (1 << k)` is the bit at place `k`, in its place.
pub bit_and_single : (k x : ℕ) → bit_and x (2 ^ k) ≡ bit_at k x * 2 ^ k
bit_and_single zero x = omega (arith, bit_and_step x 1, bit_and-zero (x / 2))
bit_and_single (suc k) x =
    let halved : 2 ^ suc k / 2 ≡ 2 ^ k = omega (arith, pow-suc 2 k) in
    omega (
      arith,
      bit_and_step x (2 ^ suc k),
      ap (λ (t : ℕ). bit_and (x / 2) t) halved,
      bit_and_single k (x / 2),
      double_pow (bit_at k (x / 2)) k,
      pow-suc 2 k,
    )

pub bit_and_three : (x : ℕ) → bit_and x 3 ≡ x % 4
bit_and_three = bit_and_low 2

pub any_bit_single : (k x : ℕ) → any_bit x (2 ^ k) ≡ (bit_at k x == 1)
any_bit_single k x = ground (arith, bit_and_single k x, bit_at-lt k x, pow_pos k)

bit_and-le_below : (n x y : ℕ) → x ≤ n → bit_and x y ≤ x
bit_and-le_below n zero y h = omega (arith, zero-bit_and y)
bit_and-le_below zero (suc x) y h = absurd (omega arith)
bit_and-le_below (suc n) (suc x) y h =
    omega (arith, bit_and_step (suc x) y, bit_and-le_below n (suc x / 2) (y / 2) (omega arith))

pub bit_and-le : (x y : ℕ) → bit_and x y ≤ x
bit_and-le x y = bit_and-le_below x x y (omega arith)

-- The ones of `x` under `y`, and those under its complement within `n` bits, make up `x`.
pub bit_and-complement :
    (n x y : ℕ) → x < 2 ^ n → y < 2 ^ n → bit_and x y + bit_and x (2 ^ n - 1 - y) ≡ x
bit_and-complement zero x y h k = omega (arith, bit_and-le x y, bit_and-le x (1 - 1 - y))
bit_and-complement (suc n) x y h k =
    let halved : (2 ^ suc n - 1 - y) / 2 ≡ 2 ^ n - 1 - y / 2 = omega (arith, pow-suc 2 n) in
    omega (
      arith,
      bit_and_step x y,
      bit_and_step x (2 ^ suc n - 1 - y),
      ap (λ (t : ℕ). bit_and (x / 2) t) halved,
      bit_and-complement n (x / 2) (y / 2) (omega (arith, pow-suc 2 n))
          (omega (arith, pow-suc 2 n)),
      pow-suc 2 n,
    )
