-- ===== src/Prelude/Bits.antt =====
-- The bit operations of C at variable operands: one equation for the lowest digit of each, and
-- what follows from it for bounds and for single bits.
use Prim.Native.Nat.{
  ℕ, zero, suc, ◌+◌, ◌*◌, ◌/◌, ◌%◌, ◌^◌, ◌≤◌, ◌<◌, min, max, bit_and, bit_or, bit_xor,
}
use Prim.Native.Nat.{digits, differ, bit_and-bitwise, bit_or-bitwise, bit_xor-bitwise}
use mathlib.Core.Path.{◌≡◌, refl, ap}
use native.Mathlib.Nat.{pow-suc}
use native.Mathlib.Omega.{arith}

-- Any two amounts of fuel that cover the first number give the same digits.
module _ (rest : ℕ → ℕ) (op : ℕ → ℕ → ℕ) where
  digits_enough : (n m a b : ℕ) → a ≤ n → a ≤ m → digits rest op n a b ≡ digits rest op m a b
  digits_enough zero zero a b p q = refl
  digits_enough zero (suc m) zero b p q = refl
  digits_enough zero (suc m) (suc a) b p q = absurd (omega arith)
  digits_enough (suc n) zero zero b p q = refl
  digits_enough (suc n) zero (suc a) b p q = absurd (omega arith)
  digits_enough (suc n) (suc m) zero b p q = refl
  digits_enough (suc n) (suc m) (suc a) b p q =
      rw (digits_enough n m (suc a / 2) (b / 2) (omega arith) (omega arith))

  digits_step :
      (a b : ℕ)
      → digits rest op (suc a) (suc a) b
        ≡ digits rest op (suc a / 2) (suc a / 2) (b / 2) * 2 + op (suc a % 2) (b % 2)
  digits_step a b =
      ap (λ (d : ℕ). d * 2 + op (suc a % 2) (b % 2))
        (digits_enough a (suc a / 2) (suc a / 2) (b / 2) (omega arith) (omega arith))

pub bit_and_step : (x y : ℕ) → bit_and x y ≡ bit_and (x / 2) (y / 2) * 2 + min (x % 2) (y % 2)
bit_and_step (suc x) y = simp bit_and-bitwise (digits_step (λ y. 0) min x y)
bit_and_step zero y = simp bit_and-bitwise (omega arith)

pub bit_or_step : (x y : ℕ) → bit_or x y ≡ bit_or (x / 2) (y / 2) * 2 + max (x % 2) (y % 2)
bit_or_step (suc x) y = simp bit_or-bitwise (digits_step (λ y. y) max x y)
bit_or_step zero y = simp bit_or-bitwise (omega arith)

differ-bits : (x y : ℕ) → x < 2 → y < 2 → differ x y ≡ (x + y) % 2
differ-bits zero zero p q = refl
differ-bits zero (suc zero) p q = refl
differ-bits (suc zero) zero p q = refl
differ-bits (suc zero) (suc zero) p q = refl
differ-bits zero (suc (suc y)) p q = absurd (omega arith)
differ-bits (suc zero) (suc (suc y)) p q = absurd (omega arith)
differ-bits (suc (suc x)) y p q = absurd (omega arith)

pub bit_xor_step : (a b : ℕ) → bit_xor a b ≡ bit_xor (a / 2) (b / 2) * 2 + (a + b) % 2
bit_xor_step zero b = simp bit_xor-bitwise (omega arith)
bit_xor_step (suc a) b =
    simp bit_xor-bitwise
      (omega (arith, digits_step (λ y. y) differ a b, differ-bits (suc a % 2) (b % 2)))

-- A conjunction is at most its first operand; the others stay within the width of both.
bit_and-le_fuel : (n a b : ℕ) → a ≤ n → bit_and a b ≤ a
bit_and-le_fuel n zero b h = simp bit_and-bitwise (omega arith)
bit_and-le_fuel zero (suc a) b h = absurd (omega arith)
bit_and-le_fuel (suc n) (suc a) b h =
    omega (arith, bit_and_step (suc a) b, bit_and-le_fuel n (suc a / 2) (b / 2) (omega arith))

pub bit_and-le : (a b : ℕ) → bit_and a b ≤ a
bit_and-le a b = bit_and-le_fuel a a b (omega arith)

bit_and-le_mask_fuel : (n a b : ℕ) → a ≤ n → bit_and a b ≤ b
bit_and-le_mask_fuel n zero b h = simp bit_and-bitwise (omega arith)
bit_and-le_mask_fuel zero (suc a) b h = absurd (omega arith)
bit_and-le_mask_fuel (suc n) (suc a) b h =
    omega (arith, bit_and_step (suc a) b, bit_and-le_mask_fuel n (suc a / 2) (b / 2) (omega arith))

pub bit_and-le_mask : (a b : ℕ) → bit_and a b ≤ b
bit_and-le_mask a b = bit_and-le_mask_fuel a a b (omega arith)

pub bit_or-lt_pow : (k a b : ℕ) → a < 2 ^ k → b < 2 ^ k → bit_or a b < 2 ^ k
bit_or-lt_pow zero zero zero p q = omega arith
bit_or-lt_pow zero zero (suc b) p q = absurd (omega arith)
bit_or-lt_pow zero (suc a) b p q = absurd (omega arith)
bit_or-lt_pow (suc k) a b p q = omega (
  arith,
  bit_or_step a b,
  pow-suc 2 k,
  bit_or-lt_pow k (a / 2) (b / 2) (omega (arith, pow-suc 2 k)) (omega (arith, pow-suc 2 k)),
)

pub bit_xor-lt_pow : (k a b : ℕ) → a < 2 ^ k → b < 2 ^ k → bit_xor a b < 2 ^ k
bit_xor-lt_pow zero zero zero p q = omega arith
bit_xor-lt_pow zero zero (suc b) p q = absurd (omega arith)
bit_xor-lt_pow zero (suc a) b p q = absurd (omega arith)
bit_xor-lt_pow (suc k) a b p q = omega (
  arith,
  bit_xor_step a b,
  pow-suc 2 k,
  bit_xor-lt_pow k (a / 2) (b / 2) (omega (arith, pow-suc 2 k)) (omega (arith, pow-suc 2 k)),
)

pub bit_or-lt : (a b : ℕ) → a < 256 → b < 256 → bit_or a b < 256
bit_or-lt = bit_or-lt_pow 8

pub bit_xor-lt : (a b : ℕ) → a < 256 → b < 256 → bit_xor a b < 256
bit_xor-lt = bit_xor-lt_pow 8

pub bit_and-zero : (a : ℕ) → bit_and a 0 ≡ 0
bit_and-zero a = omega (arith, below a a (omega arith))
  where
    below : (n a : ℕ) → a ≤ n → bit_and a 0 ≡ 0
    below n zero h = refl
    below zero (suc a) h = absurd (omega arith)
    below (suc n) (suc a) h =
        omega (arith, bit_and_step (suc a) 0, below n (suc a / 2) (omega arith))

-- The same with the halves named.
module _ (a b a' b' : ℕ) (p : a / 2 ≡ a') (q : b / 2 ≡ b') where
  bit_and_at : bit_and a b ≡ bit_and a' b' * 2 + min (a % 2) (b % 2)
  bit_and_at = rw (← p, ← q) (bit_and_step a b)

  bit_xor_at : bit_xor a b ≡ bit_xor a' b' * 2 + (a + b) % 2
  bit_xor_at = rw (← p, ← q) (bit_xor_step a b)

-- Bit 4 and bit 12 of an exclusive or of three numbers, which is how the code finds a half carry.
pub bit_and-sixteen : (a : ℕ) → bit_and a 0x10 ≡ a / 16 % 2 * 16
bit_and-sixteen a = omega (
  arith,
  bit_and_at a 16 (a / 2) 8 (omega arith) refl,
  bit_and_at (a / 2) 8 (a / 4) 4 (omega arith) refl,
  bit_and_at (a / 4) 4 (a / 8) 2 (omega arith) refl,
  bit_and_at (a / 8) 2 (a / 16) 1 (omega arith) refl,
  bit_and_at (a / 16) 1 (a / 32) 0 (omega arith) refl,
  bit_and-zero (a / 32),
)

-- A mask whose low nibble is zero reads the higher digits.
pub bit_and-above : (a b : ℕ) → bit_and a (b * 16) ≡ bit_and (a / 16) b * 16
bit_and-above a b = omega (
  arith,
  bit_and_at a (b * 16) (a / 2) (b * 8) (omega arith) (omega arith),
  bit_and_at (a / 2) (b * 8) (a / 4) (b * 4) (omega arith) (omega arith),
  bit_and_at (a / 4) (b * 4) (a / 8) (b * 2) (omega arith) (omega arith),
  bit_and_at (a / 8) (b * 2) (a / 16) b (omega arith) (omega arith),
)

pub bit_and-4096 : (a : ℕ) → bit_and a 0x1000 ≡ a / 4096 % 2 * 4096
bit_and-4096 a =
    omega (arith, bit_and-above a 256, bit_and-above (a / 16) 16, bit_and-sixteen (a / 16 / 16))

pub bit_xor-sixteen : (a b : ℕ) → bit_xor a b / 16 ≡ bit_xor (a / 16) (b / 16)
bit_xor-sixteen a b = omega (
  arith,
  bit_xor_at a b (a / 2) (b / 2) (omega arith) (omega arith),
  bit_xor_at (a / 2) (b / 2) (a / 4) (b / 4) (omega arith) (omega arith),
  bit_xor_at (a / 4) (b / 4) (a / 8) (b / 8) (omega arith) (omega arith),
  bit_xor_at (a / 8) (b / 8) (a / 16) (b / 16) (omega arith) (omega arith),
)

bit_xor-4096 : (a b : ℕ) → bit_xor a b / 4096 ≡ bit_xor (a / 4096) (b / 4096)
bit_xor-4096 a b =
    let fold = λ (n : ℕ). let e : n / 4096 ≡ n / 16 / 16 / 16 = omega arith in e in
    rw (fold a, fold b, fold (bit_xor a b), bit_xor-sixteen, bit_xor-sixteen, bit_xor-sixteen)

pub bit4_of_xor3 :
    (a b c : ℕ) → bit_and (bit_xor (bit_xor a b) c) 0x10 ≡ (a / 16 + b / 16 + c / 16) % 2 * 16
bit4_of_xor3 a b c = omega (
  arith,
  bit_and-sixteen (bit_xor (bit_xor a b) c),
  bit_xor-sixteen (bit_xor a b) c,
  bit_xor-sixteen a b,
  bit_xor_step (bit_xor a b / 16) (c / 16),
  bit_xor_step (a / 16) (b / 16),
)

pub bit12_of_xor3 :
    (a b c : ℕ)
    → bit_and (bit_xor (bit_xor a b) c) 0x1000 ≡ (a / 4096 + b / 4096 + c / 4096) % 2 * 4096
bit12_of_xor3 a b c = omega (
  arith,
  bit_and-4096 (bit_xor (bit_xor a b) c),
  bit_xor-4096 (bit_xor a b) c,
  bit_xor-4096 a b,
  bit_xor_step (bit_xor a b / 4096) (c / 4096),
  bit_xor_step (a / 4096) (b / 4096),
)

-- Numbers whose low four bits are clear stay so.
pub bit_and-low_clear : (a b : ℕ) → a % 16 ≡ 0 → bit_and a b % 16 ≡ 0
bit_and-low_clear a b h = omega (
  arith,
  bit_and_step a b,
  bit_and_step (a / 2) (b / 2),
  bit_and_step (a / 2 / 2) (b / 2 / 2),
  bit_and_step (a / 2 / 2 / 2) (b / 2 / 2 / 2),
)

pub bit_or-low_clear : (a b : ℕ) → a % 16 ≡ 0 → b % 16 ≡ 0 → bit_or a b % 16 ≡ 0
bit_or-low_clear a b h k = omega (
  arith,
  bit_or_step a b,
  bit_or_step (a / 2) (b / 2),
  bit_or_step (a / 2 / 2) (b / 2 / 2),
  bit_or_step (a / 2 / 2 / 2) (b / 2 / 2 / 2),
)

pub bit_and_mask-low_clear : (a b : ℕ) → b % 16 ≡ 0 → bit_and a b % 16 ≡ 0
bit_and_mask-low_clear a b h = omega (
  arith,
  bit_and_step a b,
  bit_and_step (a / 2) (b / 2),
  bit_and_step (a / 2 / 2) (b / 2 / 2),
  bit_and_step (a / 2 / 2 / 2) (b / 2 / 2 / 2),
)
