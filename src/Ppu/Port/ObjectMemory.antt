-- ===== src/Ppu/Port/ObjectMemory.antt =====
-- Well-formedness: the object memory and its hash, behind a write of ppu_wr() of emu/ppu.c.
use realboy.Prelude.{
  ℕ, ◌-◌, ◌*◌, ◌/◌, ◌%◌, ◌≤◌, ◌<◌, ◌≡◌, refl, ap, sym, subst, arith, inl, inr, Bool, true,
  Bool-cases, List, false, not, ◌==◌, if◌then◌else◌, if-cases, bit_and, update, Bytes, IsBytes,
  update-IsBytes,
}
use realboy.Prelude.Bits.{bit_and_step, bit_and-zero}
use realboy.Machine.{Ppu}
use realboy.Machine.Hash.{Objects, HashRows, HashValidFrom}
use realboy.Machine.Valid.{PpuValidFrom}
use realboy.Ppu.Oam.{oam_rehash}
use realboy.Ppu.Oam.Lists.{mark}
use realboy.Ppu.Oam.Rows.{kept-HashRows}
use realboy.Ppu.Oam.Rehash.{rehashed-HashRows}
use realboy.Ppu.Port.{rehashes}

bit_and-3 : (a : ℕ) → bit_and a 3 ≡ a % 4
bit_and-3 a = omega (arith, bit_and_step a 3, bit_and_step (a / 2) 1, bit_and-zero (a / 2 / 2))

-- The other fields, behind a write to the object memory.
pub with_oam-Valid :
    {base base' : Objects}
    → (s : Ppu) (oam : Bytes) (hash : ℕ → ℕ) → PpuValidFrom base s
    → IsBytes oam
    → HashValidFrom base' oam hash
    → PpuValidFrom base' (record s { oam = oam; oam_hash = hash })
with_oam-Valid s oam hash v h k = record {
  regs_valid = v.regs_valid;
  tile_bytes = v.tile_bytes;
  map1_bytes = v.map1_bytes;
  map2_bytes = v.map2_bytes;
  oam_bytes = h;
  hash_valid = k;
  dots_fit = v.dots_fit;
  frames_fit = v.frames_fit;
  vblank_dots_fit = v.vblank_dots_fit;
}

mark-keeps : (hashed : ℕ → Bool) (j i : ℕ) → hashed i ≡ true → mark hashed j i ≡ true
mark-keeps hashed j i h = ground (arith, h)

-- A write to the object memory, which may hash an object again.
module _ {base : Objects} (s : Ppu) (v : PpuValidFrom base s) (value : ℕ) (fits : value < 256) where
  -- In a valid ppu whose `oam_hash` lists the objects of a set, each once and in the row of its
  -- coordinate, oam_rehash() of an object whose new byte is in another row leaves, with the store
  -- of that byte, such a table of the same set with this object in it, by the new coordinates.
  pub oam_rehash-HashRows :
      (rows : ℕ → List ℕ) (hashed : ℕ → Bool)
      → HashRows s.oam s.oam_hash rows hashed
      → (j : ℕ) → j < 40
      → (s.oam (j * 4) / 16 == value / 16) ≡ false
      → (rows' : ℕ → List ℕ) × HashRows
          (update s.oam (j * 4) value)
          (oam_rehash s (j * 4) value).oam_hash
          rows'
          (mark hashed j)
  unfolding oam_rehash
  oam_rehash-HashRows rows hashed hash j h moved =
      (_, rehashed-HashRows s.oam s.oam_hash rows hashed hash v.oam_bytes j value h fits moved)

  pub rehash-HashValid :
      (j : ℕ)
      → j < 40
      → (s.oam (j * 4) / 16 == value / 16) ≡ false
      → HashValidFrom base (update s.oam (j * 4) value) (oam_rehash s (j * 4) value).oam_hash
  rehash-HashValid j h moved =
      let (rows, hashed, hash, from) = v.hash_valid in
      let (rows', hash') = oam_rehash-HashRows rows hashed hash j h moved in
      (rows', mark hashed j, hash', λ i b. mark-keeps hashed j i (from i b))

  -- The write itself, behind oam_rehash() or not.
  abbrev written : ℕ → Ppu → Ppu
  written i s' = record s' { oam = update s'.oam i value }

  again :
      (j : ℕ)
      → j < 40
      → (s.oam (j * 4) / 16 == value / 16) ≡ false
      → PpuValidFrom base (written (j * 4) (oam_rehash s (j * 4) value))
  unfolding oam_rehash
  again j h moved =
      with_oam-Valid s (update s.oam (j * 4) value) _ v
        (update-IsBytes s.oam (j * 4) value v.oam_bytes fits) (rehash-HashValid j h moved)

  kept :
      (addr j : ℕ)
      → 0xfe00 ≤ addr
      → rehashes s addr value ≡ false
      → j < 40
      → update s.oam (addr - 0xfe00) value (j * 4) / 16 ≡ s.oam (j * 4) / 16
  kept addr j low f h = elim (Bool-cases (addr - 0xfe00 == j * 4)) [
    | inl at ↦
        let e : addr - 0xfe00 ≡ j * 4 = ground arith in
        let first : bit_and addr 3 ≡ 0 = omega (arith, bit_and-3 addr) in
        let g : not (s.oam (addr - 0xfe00) / 16 == value / 16) ≡ false = ground (arith, first) in
        rw at (ground (arith, ap s.oam e))
    | inr other ↦ rw other refl
  ]

  pub wr_oam-Valid :
      (addr : ℕ)
      → 0xfe00 ≤ addr
      → addr ≤ 0xfe9f
      → let i = addr - 0xfe00 in
        PpuValidFrom base (written i (if rehashes s addr value then oam_rehash s i value else s))
  wr_oam-Valid addr low high =
      let i = addr - 0xfe00 in
      if-cases (λ (s' : Ppu). (PpuValidFrom base) (written i s')) (rehashes s addr value) _ _
        (λ t.
          let first : bit_and addr 3 ≡ 0 = ground arith in
          let e : i ≡ i / 4 * 4 = omega (arith, bit_and-3 addr) in
          let moved : (s.oam i / 16 == value / 16) ≡ false = ground arith in
          subst (λ (k : ℕ). (PpuValidFrom base) (written k (oam_rehash s k value))) (sym e)
            (again (i / 4) (omega arith)
              (subst (λ (k : ℕ). (s.oam k / 16 == value / 16) ≡ false) e moved)))
        (λ f.
          with_oam-Valid s (update s.oam i value) s.oam_hash v
            (update-IsBytes s.oam i value v.oam_bytes fits)
            (
              _,
              _,
              kept-HashRows s.oam s.oam_hash _ _ v.hash_valid.2 (update s.oam i value)
                  (λ j h. kept addr j low f h),
              v.hash_valid.3,
            ))
