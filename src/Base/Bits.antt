-- ===== src/Base/Bits.antt =====
-- The native `bit_and` and `bit_or` at variables: a word splits at any bit position, and each
-- half is combined by itself.
use Prim.Native.Nat.{
  ℕ, zero, suc, ◌+◌, ◌-◌, ◌*◌, ◌/◌, ◌%◌, ◌^◌, ◌≤◌, ◌<◌, min, max, digits, bit_and, bit_or,
  bit_and-bitwise, bit_or-bitwise,
}
use mathlib.Core.Path.{◌≡◌, refl, ap, ◌∙◌}
use native.Mathlib.Nat.{pow-suc, one-le-pow}
use native.Mathlib.Omega.{arith}

-- More fuel than digits changes nothing.
module _ (tail : ℕ → ℕ) (bit : ℕ → ℕ → ℕ) where
  digits_extra :
      (a fuel extra b : ℕ)
      → a ≤ fuel
      → fuel ≤ extra
      → digits tail bit extra a b ≡ digits tail bit fuel a b
  digits_extra zero zero zero b h k = refl
  digits_extra zero zero (suc extra) b h k = refl
  digits_extra zero (suc fuel) zero b h k = absurd (omega arith)
  digits_extra zero (suc fuel) (suc extra) b h k = refl
  digits_extra (suc a) zero extra b h k = absurd (omega arith)
  digits_extra (suc a) (suc fuel) zero b h k = absurd (omega arith)
  digits_extra (suc a) (suc fuel) (suc extra) b h k =
      rw (digits_extra (suc a / 2) fuel extra (b / 2) (omega arith) (omega arith))

pub bit_and_halves : (a b : ℕ) → bit_and a b ≡ bit_and (a / 2) (b / 2) * 2 + min (a % 2) (b % 2)
bit_and_halves zero b = omega (arith, bit_and-bitwise 0 b, bit_and-bitwise (0 / 2) (b / 2))
bit_and_halves (suc a) b = omega (
  arith,
  bit_and-bitwise (suc a) b,
  bit_and-bitwise (suc a / 2) (b / 2),
  digits_extra (λ _. 0) min (suc a / 2) (suc a / 2) a (b / 2) (omega arith) (omega arith),
)

pub zero-bit_and : (b : ℕ) → bit_and 0 b ≡ 0
zero-bit_and b = bit_and-bitwise 0 b

pub zero-bit_or : (b : ℕ) → bit_or 0 b ≡ b
zero-bit_or b = bit_or-bitwise 0 b

pub bit_or_halves : (a b : ℕ) → bit_or a b ≡ bit_or (a / 2) (b / 2) * 2 + max (a % 2) (b % 2)
bit_or_halves zero b = omega (arith, bit_or-bitwise 0 b, bit_or-bitwise (0 / 2) (b / 2))
bit_or_halves (suc a) b = omega (
  arith,
  bit_or-bitwise (suc a) b,
  bit_or-bitwise (suc a / 2) (b / 2),
  digits_extra (λ y. y) max (suc a / 2) (suc a / 2) a (b / 2) (omega arith) (omega arith),
)

-- The multiple of a power as twice a multiple of the power below it.
times_double : (q k : ℕ) → q * 2 ^ suc k ≡ 2 * (q * 2 ^ k)
times_double q k = omega (arith, ap (λ (t : ℕ). q * t) (pow-suc 2 k))

-- Two words of which the low `k` bits are `r` and `s` combine field by field.
pub bit_and_fields :
    (k q r p s : ℕ)
    → r < 2 ^ k
    → s < 2 ^ k
    → bit_and (q * 2 ^ k + r) (p * 2 ^ k + s) ≡ bit_and q p * 2 ^ k + bit_and r s
bit_and_fields zero q zero p zero hr hs = ground arith
bit_and_fields zero q zero p (suc s) hr hs = absurd (omega arith)
bit_and_fields zero q (suc r) p s hr hs = absurd (omega arith)
bit_and_fields (suc k) q r p s hr hs =
    let double = pow-suc 2 k in
    ground (
      arith,
      times_double q k,
      times_double p k,
      times_double (bit_and q p) k,
      bit_and_halves (q * 2 ^ suc k + r) (p * 2 ^ suc k + s),
      bit_and_halves r s,
      bit_and_fields k q (r / 2) p (s / 2) (omega arith) (omega arith),
    )

pub bit_or_fields :
    (k q r p s : ℕ)
    → r < 2 ^ k
    → s < 2 ^ k
    → bit_or (q * 2 ^ k + r) (p * 2 ^ k + s) ≡ bit_or q p * 2 ^ k + bit_or r s
bit_or_fields zero q zero p zero hr hs = ground arith
bit_or_fields zero q zero p (suc s) hr hs = absurd (omega arith)
bit_or_fields zero q (suc r) p s hr hs = absurd (omega arith)
bit_or_fields (suc k) q r p s hr hs =
    let double = pow-suc 2 k in
    ground (
      arith,
      times_double q k,
      times_double p k,
      times_double (bit_or q p) k,
      bit_or_halves (q * 2 ^ suc k + r) (p * 2 ^ suc k + s),
      bit_or_halves r s,
      bit_or_fields k q (r / 2) p (s / 2) (omega arith) (omega arith),
    )

-- A word without digits.
digits_none : (fuel a : ℕ) → digits (λ _. 0) min fuel a 0 ≡ 0
digits_none zero zero = refl
digits_none zero (suc a) = refl
digits_none (suc fuel) zero = refl
digits_none (suc fuel) (suc a) = omega (arith, digits_none fuel (suc a / 2))

pub bit_and-zero : (a : ℕ) → bit_and a 0 ≡ 0
bit_and-zero a = bit_and-bitwise a 0 ∙ digits_none a a

-- Laws that hold digit by digit, proved for the numbers below each power of two.
pub bit_or-zero_below : (k a : ℕ) → a < 2 ^ k → bit_or a 0 ≡ a
bit_or-zero_below zero zero h = refl
bit_or-zero_below zero (suc a) h = absurd (omega arith)
bit_or-zero_below (suc k) a h =
    let double = pow-suc 2 k in
    ground (arith, bit_or_halves a 0, bit_or-zero_below k (a / 2) (omega arith))

-- A mask of `k` ones keeps a `k`-bit number.
pub bit_and_ones : (k a : ℕ) → a < 2 ^ k → bit_and a (2 ^ k - 1) ≡ a
bit_and_ones zero zero h = refl
bit_and_ones zero (suc a) h = absurd (omega arith)
bit_and_ones (suc k) a h =
    let double = pow-suc 2 k in
    let some_room = one-le-pow k 2 (omega arith) in
    ground (arith, bit_and_halves a (2 ^ suc k - 1), bit_and_ones k (a / 2) (omega arith))

-- Clearing the bits of a mask leaves none of them.
pub bit_and_cleared : (k a m : ℕ) → m < 2 ^ k → bit_and (bit_and a (2 ^ k - 1 - m)) m ≡ 0
bit_and_cleared zero a zero hm = bit_and-zero (bit_and a 0)
bit_and_cleared zero a (suc m) hm = absurd (omega arith)
bit_and_cleared (suc k) a m hm =
    let double = pow-suc 2 k in
    let some_room = one-le-pow k 2 (omega arith) in
    ground (
      arith,
      bit_and_halves a (2 ^ suc k - 1 - m),
      bit_and_halves (bit_and a (2 ^ suc k - 1 - m)) m,
      bit_and_cleared k (a / 2) (m / 2) (omega arith),
    )

-- Clearing one mask does not touch a bit of another.
pub bit_and_kept :
    (k a m n : ℕ)
    → m < 2 ^ k
    → n < 2 ^ k
    → bit_and m n ≡ 0
    → bit_and (bit_and a (2 ^ k - 1 - m)) n ≡ bit_and a n
bit_and_kept zero a m zero hm hn d = rw (bit_and-zero a, bit_and-zero (bit_and a (2 ^ 0 - 1 - m)))
bit_and_kept zero a m (suc n) hm hn d = absurd (omega arith)
bit_and_kept (suc k) a m n hm hn d =
    let double = pow-suc 2 k in
    let some_room = one-le-pow k 2 (omega arith) in
    ground (
      arith,
      bit_and_halves m n,
      bit_and_halves a n,
      bit_and_halves a (2 ^ suc k - 1 - m),
      bit_and_halves (bit_and a (2 ^ suc k - 1 - m)) n,
      bit_and_kept k (a / 2) (m / 2) (n / 2) (omega arith) (omega arith),
    )
