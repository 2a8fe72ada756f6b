-- ===== src/Cpu/Logic/Decimal.antt =====
-- op_daa() of emu/cpu/cpu_ops.c behind an addition: the sum of packed decimals.
use realboy.Prelude.{
  ℕ, ◌+◌, ◌*◌, ◌/◌, ◌%◌, ◌≤◌, ◌≡◌, refl, ap, ◌∙◌, arith, Bool, true, false, ◌||◌, bit_and, bit_or,
  ltb, leb, ◌==◌, if◌then◌else◌, to_bool,
}
use realboy.Prelude.Bits.{bit_and-sixteen, bit_and-above}
use realboy.Prelude.Masks.{bit_and-nibble, bit_and-low_byte}
use realboy.Machine.{Registers}
use realboy.Machine.Valid.{RegistersValid}
use realboy.Cpu.Flags.{flags, or_if}
use realboy.Cpu.Arith.{do_adc}
use realboy.Cpu.Arith.Sums.{carry_of, added, do_adc-added}
use realboy.Cpu.Logic.{daa_acc, do_daa}

tests :
    (z n h c : Bool)
    → (to_bool (bit_and (flags z n h c) 64) ≡ n)
      × ((to_bool (bit_and (flags z n h c) 32) ≡ h) × (to_bool (bit_and (flags z n h c) 16) ≡ c))
tests true true true true = (refl, (refl, refl))
tests true true true false = (refl, (refl, refl))
tests true true false true = (refl, (refl, refl))
tests true true false false = (refl, (refl, refl))
tests true false true true = (refl, (refl, refl))
tests true false true false = (refl, (refl, refl))
tests true false false true = (refl, (refl, refl))
tests true false false false = (refl, (refl, refl))
tests false true true true = (refl, (refl, refl))
tests false true true false = (refl, (refl, refl))
tests false true false true = (refl, (refl, refl))
tests false true false false = (refl, (refl, refl))
tests false false true true = (refl, (refl, refl))
tests false false true false = (refl, (refl, refl))
tests false false false true = (refl, (refl, refl))
tests false false false false = (refl, (refl, refl))

after_daa :
    (z n h c zero over : Bool)
    → (if zero
        then bit_or (or_if over (bit_and (flags z n h c) 223) 16) 128
        else bit_and (or_if over (bit_and (flags z n h c) 223) 16) 127)
      ≡ flags zero n false (c || over)
unfolding or_if
after_daa true true true true true true = refl
after_daa true true true true true false = refl
after_daa true true true true false true = refl
after_daa true true true true false false = refl
after_daa true true true false true true = refl
after_daa true true true false true false = refl
after_daa true true true false false true = refl
after_daa true true true false false false = refl
after_daa true true false true true true = refl
after_daa true true false true true false = refl
after_daa true true false true false true = refl
after_daa true true false true false false = refl
after_daa true true false false true true = refl
after_daa true true false false true false = refl
after_daa true true false false false true = refl
after_daa true true false false false false = refl
after_daa true false true true true true = refl
after_daa true false true true true false = refl
after_daa true false true true false true = refl
after_daa true false true true false false = refl
after_daa true false true false true true = refl
after_daa true false true false true false = refl
after_daa true false true false false true = refl
after_daa true false true false false false = refl
after_daa true false false true true true = refl
after_daa true false false true true false = refl
after_daa true false false true false true = refl
after_daa true false false true false false = refl
after_daa true false false false true true = refl
after_daa true false false false true false = refl
after_daa true false false false false true = refl
after_daa true false false false false false = refl
after_daa false true true true true true = refl
after_daa false true true true true false = refl
after_daa false true true true false true = refl
after_daa false true true true false false = refl
after_daa false true true false true true = refl
after_daa false true true false true false = refl
after_daa false true true false false true = refl
after_daa false true true false false false = refl
after_daa false true false true true true = refl
after_daa false true false true true false = refl
after_daa false true false true false true = refl
after_daa false true false true false false = refl
after_daa false true false false true true = refl
after_daa false true false false true false = refl
after_daa false true false false false true = refl
after_daa false true false false false false = refl
after_daa false false true true true true = refl
after_daa false false true true true false = refl
after_daa false false true true false true = refl
after_daa false false true true false false = refl
after_daa false false true false true true = refl
after_daa false false true false true false = refl
after_daa false false true false false true = refl
after_daa false false true false false false = refl
after_daa false false false true true true = refl
after_daa false false false true true false = refl
after_daa false false false true false true = refl
after_daa false false false true false false = refl
after_daa false false false false true true = refl
after_daa false false false false true false = refl
after_daa false false false false false true = refl
after_daa false false false false false false = refl

bit_and-256 : (a : ℕ) → bit_and a 0x100 ≡ a / 256 % 2 * 256
bit_and-256 a = omega (arith, bit_and-above a 16, bit_and-sixteen (a / 16))

-- A packed decimal, and the number that it stands for.
abbrev pub Packed : ℕ → Type 0
Packed x = (x / 16 ≤ 9) × (x % 16 ≤ 9)

abbrev pub decimal : ℕ → ℕ
decimal x = x / 16 * 10 + x % 16

-- `acc` behind an addition.
daa_acc-sum :
    (r : Registers) (z h c : Bool)
    → daa_acc (record r { f = flags z false h c }) ≡ (
        let low =
          (if h
            then (r.a + 6) % 65536
            else (if ltb 9 (r.a % 16) then (r.a + 6) % 65536 else r.a)) in
        if c then (low + 0x60) % 65536 else (if ltb 0x9f low then (low + 0x60) % 65536 else low))
unfolding daa_acc
daa_acc-sum r true true true = refl
daa_acc-sum r true true false = refl
daa_acc-sum r true false true = rw (bit_and-nibble r.a) refl
daa_acc-sum r true false false = rw (bit_and-nibble r.a) refl
daa_acc-sum r false true true = refl
daa_acc-sum r false true false = refl
daa_acc-sum r false false true = rw (bit_and-nibble r.a) refl
daa_acc-sum r false false false = rw (bit_and-nibble r.a) refl

with_flags :
    (b : Bool) (r : Registers) (p q : ℕ)
    → (if b then record r { f = p } else record r { f = q }) ≡ record r { f = if b then p else q }
with_flags true r p q = refl
with_flags false r p q = refl

do_daa_lem :
    (r : Registers) (z n h c : Bool)
    → do_daa (record r { f = flags z n h c }) ≡ (
        let acc = daa_acc (record r { f = flags z n h c }) in
        record r { a = acc % 256; f = flags (acc % 256 == 0) n false (c || (acc / 256 % 2 == 1)) })
unfolding do_daa
do_daa_lem r z n h c =
    let acc = daa_acc (record r { f = flags z n h c }) in
    rw (bit_and-low_byte acc, over acc)
      (with_flags (acc % 256 == 0) (record r { a = acc % 256 }) _ _
        ∙ ap (λ (x : ℕ). record r { a = acc % 256; f = x })
            (after_daa z n h c (acc % 256 == 0) (acc / 256 % 2 == 1)))
  where
    over : (acc : ℕ) → (bit_and acc 0x100 == 0x100) ≡ (acc / 256 % 2 == 1)
    over acc = ground (arith, bit_and-256 acc)

module _ (r : Registers) (v : ℕ) (valid : RegistersValid r) (packed_a : Packed r.a)
    (packed_v : Packed v) where
  -- The digits of the sum, whatever the addition left in H and C.
  adjusted :
      daa_acc (added v (carry_of r) r) % 256
      ≡ (decimal r.a + decimal v + carry_of r) % 100 / 10 * 16
        + (decimal r.a + decimal v + carry_of r) % 10
  adjusted =
      rw
        (daa_acc-sum (added v (carry_of r) r) ((r.a + v + carry_of r) % 256 == 0)
          (leb 16 (r.a % 16 + v % 16 + carry_of r)) (leb 256 (r.a + v + carry_of r)))
        ground arith

  carried :
      (leb 256 (r.a + v + carry_of r) || (daa_acc (added v (carry_of r) r) / 256 % 2 == 1))
      ≡ leb 100 (decimal r.a + decimal v + carry_of r)
  carried =
      rw
        (daa_acc-sum (added v (carry_of r) r) ((r.a + v + carry_of r) % 256 == 0)
          (leb 16 (r.a % 16 + v % 16 + carry_of r)) (leb 256 (r.a + v + carry_of r)))
        ground arith

  -- For two packed decimals, the addition with carry and the decimal adjustment behind it leave the
  -- packed decimal sum in A and its hundred in C.
  pub do_daa-do_adc : do_daa (do_adc v r) ≡ (
      let sum = decimal r.a + decimal v + carry_of r in
      let packed = sum % 100 / 10 * 16 + sum % 10 in
      record r { a = packed; f = flags (packed == 0) false false (leb 100 sum) })
  do_daa-do_adc = rw (do_adc-added v r (omega arith) valid) (
      do_daa_lem (added v (carry_of r) r) ((r.a + v + carry_of r) % 256 == 0) false
        (leb 16 (r.a % 16 + v % 16 + carry_of r)) (leb 256 (r.a + v + carry_of r))
      ∙ ap
          (λ (c : Bool). record r {
            a = daa_acc (added v (carry_of r) r) % 256;
            f = flags (daa_acc (added v (carry_of r) r) % 256 == 0) false false c;
          })
          carried
      ∙ ap
          (λ (x : ℕ). record r {
            a = x;
            f = flags (x == 0) false false (leb 100 (decimal r.a + decimal v + carry_of r));
          })
          adjusted)
