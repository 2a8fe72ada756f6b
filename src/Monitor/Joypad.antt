-- ===== src/Monitor/Joypad.antt =====
-- The register of the joypad: what a program reads behind the row that it has selected.
use realboy.Prelude.{
  ℕ, ◌+◌, ◌*◌, ◌/◌, ◌%◌, ◌<◌, ◌≤◌, ◌≡◌, ap, arith, true, false, bit_and, bit_or, ◌==◌,
  if◌then◌else◌, to_int, Bool,
}
use realboy.Prelude.Bits.{bit_and_step, bit_and-zero, bit_and-above, bit_and-sixteen, bit_or_step}
use realboy.Prelude.Masks.{bit_or-zero}
use realboy.Machine.{Keys, Machine}
use realboy.Monitor.{
  button_bits, direction_bits, rd_joypad, monitor_rd_mem, wr_mem_body, wr_mem_depth, monitor_wr_mem,
}

bit_and-row : (v : ℕ) → bit_and v 0x30 ≡ v / 16 % 4 * 16
bit_and-row v = omega (
  arith,
  bit_and-above v 3,
  bit_and_step (v / 16) 3,
  bit_and_step (v / 16 / 2) 1,
  bit_and-zero (v / 16 / 2 / 2),
)

bit_or-keys : (p bits : ℕ) → p % 16 ≡ 0 → bits < 16 → bit_or p bits ≡ p + bits
bit_or-keys p bits h k = omega (
  arith,
  bit_or_step p bits,
  bit_or_step (p / 2) (bits / 2),
  bit_or_step (p / 2 / 2) (bits / 2 / 2),
  bit_or_step (p / 2 / 2 / 2) (bits / 2 / 2 / 2),
  ap (bit_or (p / 2 / 2 / 2 / 2)) none,
  bit_or-zero (p / 2 / 2 / 2 / 2),
)
  where
    none : bits / 2 / 2 / 2 / 2 ≡ 0
    none = omega arith

bit-lt : (b : Bool) → to_int b ≤ 1
bit-lt true = omega arith
bit-lt false = omega arith

buttons-lt : (k : Keys) → button_bits k < 16
buttons-lt k = omega (
  arith,
  bit-lt k.start_released,
  bit-lt k.select_released,
  bit-lt k.b_released,
  bit-lt k.a_released,
)

directions-lt : (k : Keys) → direction_bits k < 16
directions-lt k = omega (
  arith,
  bit-lt k.down_released,
  bit-lt k.up_released,
  bit-lt k.left_released,
  bit-lt k.right_released,
)

-- The row that a value of bits 4 and 5 selects: none, the buttons, or the directions.
abbrev pub joypad_row : ℕ → Keys → ℕ
joypad_row select k =
    if select == 3
    then 0x3f
    else (if select == 1 then 0x10 + button_bits k else select * 16 + direction_bits k)

rd_joypad-row :
    (select : ℕ) (k : Keys) → select < 4 → rd_joypad (select * 16) k ≡ joypad_row select k
unfolding rd_joypad
rd_joypad-row select k h = ground (
  arith,
  bit_and-row (select * 16),
  bit_and-sixteen (select * 16),
  bit_or-keys (select * 16) (button_bits k) (omega arith) (buttons-lt k),
  bit_or-keys (select * 16) (direction_bits k) (omega arith) (directions-lt k),
)

-- A value that is stored to P1 selects by its bits 4 and 5 the keys that a load of P1 reads, a
-- pressed key as a 0: none, the buttons, or the directions.
pub rd_mem-wr_mem_joypad :
    (m : Machine) (value : ℕ)
    → monitor_rd_mem (monitor_wr_mem m 0xff00 value) 0xff00 ≡ joypad_row (value / 16 % 4) m.keys
unfolding monitor_rd_mem monitor_wr_mem wr_mem_depth wr_mem_body
rd_mem-wr_mem_joypad m value =
    rw (bit_and-row value) (rd_joypad-row (value / 16 % 4) m.keys (omega arith))
