-- ===== src/Base/Bits.antt =====
-- The masks and shifts of the frame headers as arithmetic. Both operations go digit by digit, from
-- the lowest one up, so their law for the lowest digit is proved for any such operation.
use Prim.Native.Nat.{
  ℕ, zero, suc, ◌+◌, ◌*◌, ◌/◌, ◌%◌, ◌≤◌, ◌<◌, min, max, bit_and, bit_or, digits, bitwise,
  bit_and-bitwise, bit_or-bitwise,
}
use mathlib.Core.Path.{◌≡◌, refl, sym, ap, ◌∙◌}
use native.Mathlib.Decide.{dec_le}
use native.Mathlib.Omega.{arith}

module _ (z : ℕ → ℕ) (f : ℕ → ℕ → ℕ) where
  -- One digit more than the number has adds nothing.
  spare_digit : (n a b : ℕ) → a ≤ n → digits z f (suc n) a b ≡ digits z f n a b
  spare_digit zero zero b h = refl
  spare_digit zero (suc a) b h = absurd (omega arith)
  spare_digit (suc n) zero b h = refl
  spare_digit (suc n) (suc a) b h =
      ap (λ d. d * 2 + f (suc a % 2) (b % 2)) (spare_digit n (suc a / 2) (b / 2) (omega arith))

  spare_digits : (n a b : ℕ) → a ≤ n → digits z f n a b ≡ bitwise z f a b
  spare_digits zero zero b h = refl
  spare_digits zero (suc a) b h = absurd (omega arith)
  spare_digits (suc n) a b h = elim (dec_le a n) [
    | yes more ↦ spare_digit n a b more ∙ spare_digits n a b more
    | no last ↦ let same : suc n ≡ a = omega arith in ap (λ m. digits z f m a b) same
  ]

  lowest_digit :
      (a b : ℕ)
      → bitwise z f (suc a) b ≡ bitwise z f (suc a / 2) (b / 2) * 2 + f (suc a % 2) (b % 2)
  lowest_digit a b =
      ap (λ d. d * 2 + f (suc a % 2) (b % 2)) (spare_digits a (suc a / 2) (b / 2) (omega arith))

and_lowest : (a b : ℕ) → bit_and a b ≡ bit_and (a / 2) (b / 2) * 2 + min (a % 2) (b % 2)
and_lowest zero b = omega (arith, bit_and-bitwise 0 b, bit_and-bitwise 0 (b / 2))
and_lowest (suc a) b =
    bit_and-bitwise (suc a) b
    ∙ (lowest_digit (λ _. 0) min a b
        ∙ ap (λ d. d * 2 + min (suc a % 2) (b % 2)) (sym (bit_and-bitwise (suc a / 2) (b / 2))))

or_lowest : (a b : ℕ) → bit_or a b ≡ bit_or (a / 2) (b / 2) * 2 + max (a % 2) (b % 2)
or_lowest zero b = omega (arith, bit_or-bitwise 0 b, bit_or-bitwise 0 (b / 2))
or_lowest (suc a) b =
    bit_or-bitwise (suc a) b
    ∙ (lowest_digit (λ d. d) max a b
        ∙ ap (λ d. d * 2 + max (suc a % 2) (b % 2)) (sym (bit_or-bitwise (suc a / 2) (b / 2))))

-- A number with nothing in the second argument, on fuel.
nothing_left : (n a : ℕ) → a ≤ n → (bit_and a 0 ≡ 0) × (bit_or a 0 ≡ a)
nothing_left n zero h = (refl, refl)
nothing_left zero (suc a) h = absurd (omega arith)
nothing_left (suc n) (suc a) h =
    let rest : (bit_and (suc a / 2) 0 ≡ 0) × (bit_or (suc a / 2) 0 ≡ suc a / 2) =
      nothing_left n (suc a / 2) (omega arith) in
    (omega (arith, and_lowest (suc a) 0, rest.0), omega (arith, or_lowest (suc a) 0, rest.1))

or_nothing : (a : ℕ) → bit_or a 0 ≡ a
or_nothing a = (nothing_left a a (omega arith)).1

-- A mask of ones with one more of them, and a mask that leaves the lowest digit out.
more_ones :
    (m p a : ℕ) → ((x : ℕ) → bit_and x m ≡ x % p) → bit_and a (m * 2 + 1) ≡ a / 2 % p * 2 + a % 2
more_ones m p a h =
    let half : (m * 2 + 1) / 2 ≡ m = omega arith in
    omega (arith, rw half at (and_lowest a (m * 2 + 1)), h (a / 2))

shifted_mask : (m a : ℕ) → bit_and a (m * 2) ≡ bit_and (a / 2) m * 2
shifted_mask m a =
    let half : m * 2 / 2 ≡ m = omega arith in omega (arith, rw half at (and_lowest a (m * 2)))

bit_and_0x01 : (a : ℕ) → bit_and a 0x01 ≡ a % 2
bit_and_0x01 a = omega (arith, and_lowest a 1, (nothing_left (a / 2) (a / 2) (omega arith)).0)

bit_and_0x03 : (a : ℕ) → bit_and a 0x03 ≡ a % 4
bit_and_0x03 a = omega (arith, more_ones 1 2 a bit_and_0x01)

bit_and_0x07 : (a : ℕ) → bit_and a 0x07 ≡ a % 8
bit_and_0x07 a = omega (arith, more_ones 3 4 a bit_and_0x03)

pub bit_and_0x0f : (a : ℕ) → bit_and a 0x0f ≡ a % 16
bit_and_0x0f a = omega (arith, more_ones 7 8 a bit_and_0x07)

bit_and_0x1f : (a : ℕ) → bit_and a 0x1f ≡ a % 32
bit_and_0x1f a = omega (arith, more_ones 15 16 a bit_and_0x0f)

bit_and_0x3f : (a : ℕ) → bit_and a 0x3f ≡ a % 64
bit_and_0x3f a = omega (arith, more_ones 31 32 a bit_and_0x1f)

bit_and_0x7f : (a : ℕ) → bit_and a 0x7f ≡ a % 128
bit_and_0x7f a = omega (arith, more_ones 63 64 a bit_and_0x3f)

pub bit_and_0xff : (a : ℕ) → bit_and a 0xff ≡ a % 256
bit_and_0xff a = omega (arith, more_ones 127 128 a bit_and_0x7f)

bit_and_0x1ff : (a : ℕ) → bit_and a 0x1ff ≡ a % 512
bit_and_0x1ff a = omega (arith, more_ones 255 256 a bit_and_0xff)

bit_and_0x3ff : (a : ℕ) → bit_and a 0x3ff ≡ a % 1024
bit_and_0x3ff a = omega (arith, more_ones 511 512 a bit_and_0x1ff)

bit_and_0x7ff : (a : ℕ) → bit_and a 0x7ff ≡ a % 2048
bit_and_0x7ff a = omega (arith, more_ones 1023 1024 a bit_and_0x3ff)

bit_and_0xfff : (a : ℕ) → bit_and a 0xfff ≡ a % 4096
bit_and_0xfff a = omega (arith, more_ones 2047 2048 a bit_and_0x7ff)

bit_and_0x1fff : (a : ℕ) → bit_and a 0x1fff ≡ a % 8192
bit_and_0x1fff a = omega (arith, more_ones 4095 4096 a bit_and_0xfff)

bit_and_0x3fff : (a : ℕ) → bit_and a 0x3fff ≡ a % 16384
bit_and_0x3fff a = omega (arith, more_ones 8191 8192 a bit_and_0x1fff)

bit_and_0x7fff : (a : ℕ) → bit_and a 0x7fff ≡ a % 32768
bit_and_0x7fff a = omega (arith, more_ones 16383 16384 a bit_and_0x3fff)

pub bit_and_0xffff : (a : ℕ) → bit_and a 0xffff ≡ a % 65536
bit_and_0xffff a = omega (arith, more_ones 32767 32768 a bit_and_0x7fff)

-- The high nibble of a byte, left in its place.
pub bit_and_0xf0 : (a : ℕ) → a < 256 → bit_and a 0xf0 ≡ a / 16 * 16
bit_and_0xf0 a h = omega (
  arith,
  shifted_mask 0x78 a,
  shifted_mask 0x3c (a / 2),
  shifted_mask 0x1e (a / 2 / 2),
  shifted_mask 0x0f (a / 2 / 2 / 2),
  bit_and_0x0f (a / 2 / 2 / 2 / 2),
)

-- The number with bit `k` set, so that a shift by `k` is a product.
unfoldable pub pow2 : ℕ → ℕ
pow2 zero = 1
pow2 (suc k) = pow2 k * 2

half_double : (n : ℕ) → n * 2 / 2 ≡ n
half_double n = omega arith

double : (n b : ℕ) → bit_or n (b / 2) ≡ n + b / 2 → bit_or (n * 2) b ≡ n * 2 + b
double n b h =
    let s : bit_or (n * 2) b ≡ bit_or n (b / 2) * 2 + max (n * 2 % 2) (b % 2) =
      rw half_double at (or_lowest (n * 2) b) in
    omega arith

double_right : (n b : ℕ) → bit_or (b / 2) n ≡ n + b / 2 → bit_or b (n * 2) ≡ n * 2 + b
double_right n b h =
    let s : bit_or b (n * 2) ≡ bit_or (b / 2) n * 2 + max (b % 2) (n * 2 % 2) =
      rw half_double at (or_lowest b (n * 2)) in
    omega arith

-- Fields that do not overlap: `a << k | b` adds.
bit_or_shift : (k a b : ℕ) → b < pow2 k → bit_or (a * pow2 k) b ≡ a * pow2 k + b
unfolding pow2
bit_or_shift zero a zero h = omega (arith, or_nothing (a * 1))
bit_or_shift zero a (suc b) h = absurd (omega arith)
bit_or_shift (suc k) a b h =
    let e : a * (pow2 k * 2) ≡ a * pow2 k * 2 = omega arith in
    rw e (double (a * pow2 k) b (bit_or_shift k a (b / 2) (omega arith)))

bit_or_shift_right : (k a b : ℕ) → b < pow2 k → bit_or b (a * pow2 k) ≡ a * pow2 k + b
unfolding pow2
bit_or_shift_right zero a zero h = omega (arith, bit_or-bitwise 0 (a * 1))
bit_or_shift_right zero a (suc b) h = absurd (omega arith)
bit_or_shift_right (suc k) a b h =
    let e : a * (pow2 k * 2) ≡ a * pow2 k * 2 = omega arith in
    rw e (double_right (a * pow2 k) b (bit_or_shift_right k a (b / 2) (omega arith)))

pub bit_or-256 : (a b : ℕ) → b < 256 → bit_or (a * 256) b ≡ a * 256 + b
unfolding pow2
bit_or-256 = bit_or_shift 8

pub bit_or-256_right : (a b : ℕ) → b < 256 → bit_or b (a * 256) ≡ a * 256 + b
unfolding pow2
bit_or-256_right = bit_or_shift_right 8

pub bit_or-16 : (a b : ℕ) → b < 16 → bit_or (a * 16) b ≡ a * 16 + b
unfolding pow2
bit_or-16 = bit_or_shift 4
