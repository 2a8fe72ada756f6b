-- ===== src/Prelude/Words.antt =====
-- The fixed-width arithmetic of C, and arrays of bytes.
use Prim.Native.Nat.{ℕ, ◌+◌, ◌-◌, ◌%◌, ◌^◌, ◌<◌}
use mathlib.Core.Bool.{Bool, true, false, not}
use native.Mathlib.Omega.{arith}
use realboy.Prelude.Tests.{◌==◌, ltb, if◌then◌else◌}

-- The conversions to uint32_t, uint16_t and uint8_t.
abbrev pub u32 : ℕ → ℕ
u32 x = x % 2 ^ 32

abbrev pub u16 : ℕ → ℕ
u16 x = x % 65536

abbrev pub u8 : ℕ → ℕ
u8 x = x % 256

-- Subtraction of an operand that is at most the modulus.
abbrev pub sub8 : ℕ → ℕ → ℕ
sub8 a b = (a + 256 - b) % 256

abbrev pub sub16 : ℕ → ℕ → ℕ
sub16 a b = (a + 65536 - b) % 65536

abbrev pub sub32 : ℕ → ℕ → ℕ
sub32 a b = (a + 2 ^ 32 - b) % 2 ^ 32

-- An int8_t that was read from a byte, as the 32-bit pattern of the `int` that it is promoted to.
abbrev pub int8 : ℕ → ℕ
int8 b = if ltb b 128 then b else b + 0xffff_ff00

-- `~x` of a byte, as far as the low eight bits go.
abbrev pub not8 : ℕ → ℕ
not8 x = 255 - x

-- A C integer as a condition, and a `bool` as an integer.
abbrev pub to_bool : ℕ → Bool
to_bool n = not (n == 0)

abbrev pub to_int : Bool → ℕ
to_int true = 1
to_int false = 0

-- An array of bytes. The code's bounds are stated where it indexes.
abbrev pub Bytes : Type 0
Bytes = ℕ → ℕ

abbrev pub update : Bytes → ℕ → ℕ → Bytes
update f i v j = if i == j then v else f j

abbrev pub IsBytes : Bytes → Type 0
IsBytes f = (i : ℕ) → f i < 256

pub update-IsBytes : (f : Bytes) (i v : ℕ) → IsBytes f → v < 256 → IsBytes (update f i v)
update-IsBytes f i v h k j = ground (arith, h j)
