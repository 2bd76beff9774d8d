-- ===== src/Prelude/Bits.antt =====
-- Laws of the bit operations of C++ on numbers of any size, from the equation for the lowest digit.
use Prim.Native.Nat.{
  ℕ, zero, suc, ◌+◌, ◌*◌, ◌/◌, ◌%◌, ◌^◌, ◌≤◌, ◌<◌, min, max, differ, bit_and, bit_or, bit_xor,
  digits, bit_and-bitwise, bit_or-bitwise, bit_xor-bitwise,
}
use mathlib.Core.Path.{◌≡◌, refl, ap, ◌∙◌}
use native.Mathlib.Nat.{pow-suc, le_refl}
use native.Mathlib.Omega.{arith}

module _ (z : ℕ → ℕ) (f : ℕ → ℕ → ℕ) where
  -- A count of digits that is large enough may be any such.
  digits_count : (a b n k : ℕ) → a ≤ n → n ≤ k → digits z f k a b ≡ digits z f n a b
  digits_count zero b zero zero lo hi = refl
  digits_count zero b zero (suc k) lo hi = refl
  digits_count zero b (suc n) zero lo hi = absurd (omega arith)
  digits_count zero b (suc n) (suc k) lo hi = refl
  digits_count (suc a) b zero k lo hi = absurd (omega arith)
  digits_count (suc a) b (suc n) zero lo hi = absurd (omega arith)
  digits_count (suc a) b (suc n) (suc k) lo hi =
      ap (λ d. d * 2 + f (suc a % 2) (b % 2))
        (digits_count (suc a / 2) (b / 2) n k (omega arith) (omega arith))

-- The lowest digit of `a op b`, where `op` is a bit operation.
pub bit_or-low : (a b : ℕ) → bit_or a b ≡ bit_or (a / 2) (b / 2) * 2 + max (a % 2) (b % 2)
bit_or-low zero b = omega (arith, bit_or-bitwise 0 b, bit_or-bitwise 0 (b / 2))
bit_or-low (suc a) b = omega (
  arith,
  bit_or-bitwise (suc a) b,
  bit_or-bitwise (suc a / 2) (b / 2),
  digits_count (λ y. y) max (suc a / 2) (b / 2) (suc a / 2) a (omega arith) (omega arith),
)

pub bit_and-low : (a b : ℕ) → bit_and a b ≡ bit_and (a / 2) (b / 2) * 2 + min (a % 2) (b % 2)
bit_and-low zero b = omega (arith, bit_and-bitwise 0 b, bit_and-bitwise 0 (b / 2))
bit_and-low (suc a) b = omega (
  arith,
  bit_and-bitwise (suc a) b,
  bit_and-bitwise (suc a / 2) (b / 2),
  digits_count (λ y. 0) min (suc a / 2) (b / 2) (suc a / 2) a (omega arith) (omega arith),
)

pub bit_xor-low : (a b : ℕ) → bit_xor a b ≡ bit_xor (a / 2) (b / 2) * 2 + differ (a % 2) (b % 2)
bit_xor-low zero b = omega (arith, bit_xor-bitwise 0 b, bit_xor-bitwise 0 (b / 2))
bit_xor-low (suc a) b = omega (
  arith,
  bit_xor-bitwise (suc a) b,
  bit_xor-bitwise (suc a / 2) (b / 2),
  digits_count (λ y. y) differ (suc a / 2) (b / 2) (suc a / 2) a (omega arith) (omega arith),
)

pub zero-bit_or : (b : ℕ) → bit_or 0 b ≡ b
zero-bit_or b = bit_or-bitwise 0 b

pub zero-bit_xor : (b : ℕ) → bit_xor 0 b ≡ b
zero-bit_xor b = bit_xor-bitwise 0 b

double_pow : (q k : ℕ) → q * 2 ^ suc k ≡ 2 * (q * 2 ^ k)
double_pow q k = omega (arith, ap (λ (t : ℕ). q * t) (pow-suc 2 k))

-- `r | (q << k)` is a sum where `r` has at most `k` bits.
pub bit_or-add : (k r q : ℕ) → r < 2 ^ k → bit_or r (q * 2 ^ k) ≡ r + q * 2 ^ k
bit_or-add zero r q h = let e : r ≡ 0 = omega arith in rw e (zero-bit_or (q * 2 ^ 0) ∙ omega arith)
bit_or-add (suc k) r q h = ground (
  arith,
  bit_or-low r (q * 2 ^ suc k),
  double_pow q k,
  pow-suc 2 k,
  bit_or-add k (r / 2) q (omega (arith, pow-suc 2 k)),
)

bit_and-zero : (n a : ℕ) → a ≤ n → bit_and a 0 ≡ 0
bit_and-zero n zero h = bit_and-bitwise 0 0
bit_and-zero zero (suc a) h = absurd (omega arith)
bit_and-zero (suc n) (suc a) h =
    omega (arith, bit_and-low (suc a) 0, bit_and-zero n (suc a / 2) (omega arith))

-- A mask with one more bit.
bit_and-mask_suc : (a m : ℕ) → bit_and a (2 * m + 1) ≡ bit_and (a / 2) m * 2 + a % 2
bit_and-mask_suc a m =
    let half : (2 * m + 1) / 2 ≡ m = omega arith in
    let odd : (2 * m + 1) % 2 ≡ 1 = omega arith in
    bit_and-low a (2 * m + 1)
    ∙ ap (λ x. bit_and (a / 2) x * 2 + min (a % 2) ((2 * m + 1) % 2)) half
    ∙ omega arith

bit_and-15 : (a : ℕ) → bit_and a 15 ≡ a % 16
bit_and-15 a = omega (
  arith,
  bit_and-mask_suc a 7,
  bit_and-mask_suc (a / 2) 3,
  bit_and-mask_suc (a / 2 / 2) 1,
  bit_and-mask_suc (a / 2 / 2 / 2) 0,
  bit_and-zero _ (a / 2 / 2 / 2 / 2) (le_refl _),
)

-- `a & 0xff` is the lowest byte.
pub bit_and-byte : (a : ℕ) → bit_and a 255 ≡ a % 256
bit_and-byte a = omega (
  arith,
  bit_and-mask_suc a 127,
  bit_and-mask_suc (a / 2) 63,
  bit_and-mask_suc (a / 2 / 2) 31,
  bit_and-mask_suc (a / 2 / 2 / 2) 15,
  bit_and-15 (a / 2 / 2 / 2 / 2),
)

differ-lt : (x y : ℕ) → x < 2 → y < 2 → differ x y < 2
differ-lt zero y hx hy = hy
differ-lt (suc zero) zero hx hy = omega arith
differ-lt (suc zero) (suc y) hx hy = omega arith
differ-lt (suc (suc x)) y hx hy = absurd (omega arith)

differ-differ : (x y : ℕ) → x < 2 → y < 2 → differ (differ x y) y ≡ x
differ-differ zero zero hx hy = refl
differ-differ zero (suc zero) hx hy = refl
differ-differ zero (suc (suc y)) hx hy = absurd (omega arith)
differ-differ (suc zero) zero hx hy = refl
differ-differ (suc zero) (suc zero) hx hy = refl
differ-differ (suc zero) (suc (suc y)) hx hy = absurd (omega arith)
differ-differ (suc (suc x)) y hx hy = absurd (omega arith)

pub bit_xor-lt : (k a b : ℕ) → a < 2 ^ k → b < 2 ^ k → bit_xor a b < 2 ^ k
bit_xor-lt zero a b ha hb =
    let ea : a ≡ 0 = omega arith in
    let eb : b ≡ 0 = omega arith in rw (ea, eb) (omega (arith, bit_xor-bitwise 0 0))
bit_xor-lt (suc k) a b ha hb = omega (
  arith,
  bit_xor-low a b,
  bit_xor-lt k (a / 2) (b / 2) (omega (arith, pow-suc 2 k)) (omega (arith, pow-suc 2 k)),
  differ-lt (a % 2) (b % 2) (omega arith) (omega arith),
  pow-suc 2 k,
)

bit_xor-half : (a b : ℕ) → bit_xor a b / 2 ≡ bit_xor (a / 2) (b / 2)
bit_xor-half a b =
    omega (arith, bit_xor-low a b, differ-lt (a % 2) (b % 2) (omega arith) (omega arith))

bit_xor-parity : (a b : ℕ) → bit_xor a b % 2 ≡ differ (a % 2) (b % 2)
bit_xor-parity a b =
    omega (arith, bit_xor-low a b, differ-lt (a % 2) (b % 2) (omega arith) (omega arith))

bit_xor-cancel_count : (n a b : ℕ) → a ≤ n → b ≤ n → bit_xor (bit_xor a b) b ≡ a
bit_xor-cancel_count zero a b ha hb =
    let ea : a ≡ 0 = omega arith in let eb : b ≡ 0 = omega arith in rw (ea, eb) refl
bit_xor-cancel_count (suc n) a b ha hb =
    let rest = bit_xor-cancel_count n (a / 2) (b / 2) (omega arith) (omega arith) in
    bit_xor-low (bit_xor a b) b
    ∙ ap (λ x. bit_xor x (b / 2) * 2 + differ (bit_xor a b % 2) (b % 2)) (bit_xor-half a b)
    ∙ ap (λ y. bit_xor (bit_xor (a / 2) (b / 2)) (b / 2) * 2 + differ y (b % 2))
        (bit_xor-parity a b)
    ∙ omega (arith, rest, differ-differ (a % 2) (b % 2) (omega arith) (omega arith))

-- Exclusive or with the same number twice changes nothing.
pub bit_xor-cancel : (a b : ℕ) → bit_xor (bit_xor a b) b ≡ a
bit_xor-cancel a b = bit_xor-cancel_count (a + b) a b (omega arith) (omega arith)

bit_and-12 : (a : ℕ) → bit_and a 4095 ≡ a % 2 ^ 12
bit_and-12 a = omega (
  arith,
  bit_and-mask_suc a 2047,
  bit_and-mask_suc (a / 2) 1023,
  bit_and-mask_suc (a / 2 / 2) 511,
  bit_and-mask_suc (a / 2 / 2 / 2) 255,
  bit_and-byte (a / 2 / 2 / 2 / 2),
)

bit_and-16 : (a : ℕ) → bit_and a 65535 ≡ a % 2 ^ 16
bit_and-16 a = omega (
  arith,
  bit_and-mask_suc a 32767,
  bit_and-mask_suc (a / 2) 16383,
  bit_and-mask_suc (a / 2 / 2) 8191,
  bit_and-mask_suc (a / 2 / 2 / 2) 4095,
  bit_and-12 (a / 2 / 2 / 2 / 2),
)

bit_and-20 : (a : ℕ) → bit_and a 1048575 ≡ a % 2 ^ 20
bit_and-20 a = omega (
  arith,
  bit_and-mask_suc a 524287,
  bit_and-mask_suc (a / 2) 262143,
  bit_and-mask_suc (a / 2 / 2) 131071,
  bit_and-mask_suc (a / 2 / 2 / 2) 65535,
  bit_and-16 (a / 2 / 2 / 2 / 2),
)

bit_and-24 : (a : ℕ) → bit_and a 16777215 ≡ a % 2 ^ 24
bit_and-24 a = omega (
  arith,
  bit_and-mask_suc a 8388607,
  bit_and-mask_suc (a / 2) 4194303,
  bit_and-mask_suc (a / 2 / 2) 2097151,
  bit_and-mask_suc (a / 2 / 2 / 2) 1048575,
  bit_and-20 (a / 2 / 2 / 2 / 2),
)

bit_and-28 : (a : ℕ) → bit_and a 268435455 ≡ a % 2 ^ 28
bit_and-28 a = omega (
  arith,
  bit_and-mask_suc a 134217727,
  bit_and-mask_suc (a / 2) 67108863,
  bit_and-mask_suc (a / 2 / 2) 33554431,
  bit_and-mask_suc (a / 2 / 2 / 2) 16777215,
  bit_and-24 (a / 2 / 2 / 2 / 2),
)

-- `a & 0xffffffff` is the lower half of a 64-bit number.
pub bit_and-32 : (a : ℕ) → bit_and a 4294967295 ≡ a % 2 ^ 32
bit_and-32 a = omega (
  arith,
  bit_and-mask_suc a 2147483647,
  bit_and-mask_suc (a / 2) 1073741823,
  bit_and-mask_suc (a / 2 / 2) 536870911,
  bit_and-mask_suc (a / 2 / 2 / 2) 268435455,
  bit_and-28 (a / 2 / 2 / 2 / 2),
)
