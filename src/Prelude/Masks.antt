-- ===== src/Prelude/Masks.antt =====
-- Conjunctions with the masks of the code: of ones, of the high byte, and of one flag.
use Prim.Native.Nat.{
  max, bit_or, ◌+◌, ◌≤◌, bit_or-bitwise, ℕ, zero, suc, ◌-◌, ◌*◌, ◌/◌, ◌%◌, ◌^◌, ◌<◌, bit_and,
}
use mathlib.Core.Path.{◌≡◌, ap, refl}
use native.Mathlib.Omega.{arith}
use realboy.Prelude.Bits.{bit_or_step, bit_and_step, bit_and-le, bit_and-above, bit_and-zero}

pub pow_pos : (k : ℕ) → 0 < 2 ^ k
pow_pos zero = omega arith
pow_pos (suc k) = omega (arith, pow_pos k)

ones_half : (k : ℕ) → (2 ^ suc k - 1) / 2 ≡ 2 ^ k - 1
ones_half k = omega (arith, pow_pos k)

-- A mask of ones keeps what fits under it.
pub bit_and-ones : (k a : ℕ) → a < 2 ^ k → bit_and a (2 ^ k - 1) ≡ a
bit_and-ones zero a h = omega (arith, bit_and-le a 0)
bit_and-ones (suc k) a h = omega (
  arith,
  bit_and_step a (2 ^ suc k - 1),
  ap (bit_and (a / 2)) (ones_half k),
  bit_and-ones k (a / 2) (omega arith),
  pow_pos k,
)

pub bit_and-high_byte : (a : ℕ) → a < 65536 → bit_and a 0xff00 ≡ a / 256 * 256
bit_and-high_byte a h = omega (
  arith,
  bit_and-above a 0xff0,
  bit_and-above (a / 16) 0xff,
  bit_and-ones 8 (a / 16 / 16) (omega arith),
)

pub bit_and-nibble : (a : ℕ) → bit_and a 15 ≡ a % 16
bit_and-nibble a = omega (
  arith,
  bit_and_step a 15,
  bit_and_step (a / 2) 7,
  bit_and_step (a / 2 / 2) 3,
  bit_and_step (a / 2 / 2 / 2) 1,
  bit_and-zero (a / 2 / 2 / 2 / 2),
)

pub bit_and-low_byte : (a : ℕ) → bit_and a 0xff ≡ a % 256
bit_and-low_byte a = omega (
  arith,
  bit_and_step a 255,
  bit_and_step (a / 2) 127,
  bit_and_step (a / 2 / 2) 63,
  bit_and_step (a / 2 / 2 / 2) 31,
  bit_and-nibble (a / 2 / 2 / 2 / 2),
)

-- Disjunctions of operands that have no bit in common.
pub bit_or-zero : (a : ℕ) → bit_or a 0 ≡ a
bit_or-zero a = below a a (omega arith)
  where
    below : (n a : ℕ) → a ≤ n → bit_or a 0 ≡ a
    below n zero h = refl
    below zero (suc a) h = absurd (omega arith)
    below (suc n) (suc a) h =
        omega (arith, bit_or_step (suc a) 0, below n (suc a / 2) (omega arith))

pub bit_or-zero_left : (b : ℕ) → bit_or 0 b ≡ b
bit_or-zero_left b = simp bit_or-bitwise refl

pub bit_or-low_bit : (a c : ℕ) → a % 2 ≡ 0 → c < 2 → bit_or a c ≡ a + c
bit_or-low_bit a c h k =
    omega (arith, bit_or_step a c, ap (bit_or (a / 2)) half, bit_or-zero (a / 2))
  where
    half : c / 2 ≡ 0
    half = omega arith

module _ (a b a' b' : ℕ) (p : a / 2 ≡ a') (q : b / 2 ≡ b') where
  bit_or_at : bit_or a b ≡ bit_or a' b' * 2 + max (a % 2) (b % 2)
  bit_or_at = rw (← p, ← q) (bit_or_step a b)

pub bit_or-above : (a b : ℕ) → bit_or a (b * 16) ≡ bit_or (a / 16) b * 16 + a % 16
bit_or-above a b = omega (
  arith,
  bit_or_at a (b * 16) (a / 2) (b * 8) (omega arith) (omega arith),
  bit_or_at (a / 2) (b * 8) (a / 4) (b * 4) (omega arith) (omega arith),
  bit_or_at (a / 4) (b * 4) (a / 8) (b * 2) (omega arith) (omega arith),
  bit_or_at (a / 8) (b * 2) (a / 16) b (omega arith) (omega arith),
)

pub bit_or-bytes : (lo hi : ℕ) → lo < 256 → bit_or lo (hi * 256) ≡ lo + hi * 256
bit_or-bytes lo hi h = omega (
  arith,
  ap (bit_or lo) scale,
  bit_or-above lo (hi * 16),
  bit_or-above (lo / 16) hi,
  ap (λ x. bit_or x hi) top,
  bit_or-zero_left hi,
)
  where
    top : lo / 16 / 16 ≡ 0
    top = omega arith

    scale : hi * 16 * 16 ≡ hi * 256
    scale = omega arith
