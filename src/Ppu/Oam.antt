-- ===== src/Ppu/Oam.antt =====
-- oam_rehash() of emu/ppu.c: the objects, hashed by the high nibble of their row. Its three loops
-- walk the cells of `oam_hash`, from a row's start to a NULL. They take fuel, one unit for each
-- cell up to the end of the array, and stop there.
pub mod Lists
pub mod Walks
pub mod Rows
pub mod Rehash
use realboy.Prelude.{
  ℕ, zero, suc, ◌+◌, ◌-◌, ◌*◌, ◌/◌, Bool, false, ◌||◌, ◌==◌, if◌then◌else◌, update,
}
use realboy.Machine.{Ppu}

-- The cells of `oam_hash`, and the first of row `k`.
abbrev pub cells : ℕ
cells = 17 * 40

abbrev pub row : ℕ → ℕ
row k = k * 40

-- `while (*obj)` with `found`: from the cell that holds `p` on, each takes its neighbour's value.
unfoldable pub unlink : ℕ → (ℕ → ℕ) → ℕ → ℕ → Bool → ℕ → ℕ
unlink zero hash obj p found = hash
unlink (suc fuel) hash obj p found =
    let hit = hash obj == p || found in
    let hash' = if hit then update hash obj (hash (obj + 1)) else hash in
    let rest = unlink fuel hash' (obj + 1) p hit in if hash obj == 0 then hash else rest

-- `while (*obj) obj++;`
unfoldable pub free_cell : ℕ → (ℕ → ℕ) → ℕ → ℕ
free_cell zero hash obj = obj
free_cell (suc fuel) hash obj =
    let rest = free_cell fuel hash (obj + 1) in if hash obj == 0 then obj else rest

-- `addr` is the offset of the object's first byte, which still holds its old row.
unfoldable pub oam_rehash : Ppu → ℕ → ℕ → Ppu
unfolding unlink free_cell
oam_rehash s addr new_y =
    let old = row (s.oam addr / 16) in
    let hash = unlink (cells - old) s.oam_hash old (addr + 1) false in
    let new = row (new_y / 16) in
    record s { oam_hash = update hash (free_cell (cells - new) hash new) (addr + 1) }
