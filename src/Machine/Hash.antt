-- ===== src/Machine/Hash.antt =====
-- What `oam_hash` of emu/ppu.c holds: 17 rows of 40 cells, each the list of the objects whose row on
-- the screen has that high nibble, filled up with NULL.
use realboy.Prelude.{
  ℕ, zero, suc, ◌+◌, ◌*◌, ◌/◌, ◌%◌, ◌<◌, ◌≡◌, Bool, true, false, ◌&&◌, ◌==◌, to_int, Bytes, List,
  [], ◌∷◌, nth, length, count,
}

-- The cell of an object of `ppu.oam`.
abbrev pub IsCell : ℕ → Type 0
IsCell c = (c < 160) × (c % 4 ≡ 1)

abbrev pub Cells : List ℕ → Type 0
Cells [] = Unit
Cells (x ∷ xs) = IsCell x × Cells xs

-- `n` cells from `at` on hold a list.
abbrev pub Held : (ℕ → ℕ) → ℕ → ℕ → List ℕ → Type 0
Held hash at n xs = (i : ℕ) → i < n → hash (at + i) ≡ nth xs i

abbrev pub total : ℕ → (ℕ → List ℕ) → ℕ
total zero rows = 0
total (suc n) rows = length (rows n) + total n rows

abbrev pub tally : ℕ → (ℕ → Bool) → ℕ
tally zero hashed = 0
tally (suc n) hashed = to_int (hashed n) + tally n hashed

-- The rows, and which objects are in them: each in the row of its coordinate, once. The others have
-- a coordinate below 16.
pub record HashRows (oam : Bytes) (hash : ℕ → ℕ) (rows : ℕ → List ℕ) (hashed : ℕ → Bool)
    : Type 0 where
  pub held : (r : ℕ) → r < 17 → Held hash (r * 40) 40 (rows r)
  pub cells : (r : ℕ) → Cells (rows r)
  pub once :
      (r j : ℕ) → j < 40 → count (j * 4 + 1) (rows r) ≡ to_int (hashed j && oam (j * 4) / 16 == r)
  pub fresh : (j : ℕ) → j < 40 → hashed j ≡ false → oam (j * 4) / 16 ≡ 0
  pub all_told : total 17 rows ≡ tally 40 hashed

-- A set of objects, by their number in `ppu.oam`.
abbrev pub Objects : Type 0
Objects = ℕ → Bool

-- `base` are objects that have to be in the table.
abbrev pub HashValidFrom : Objects → Bytes → (ℕ → ℕ) → Type 0
HashValidFrom base oam hash =
    (rows : ℕ → List ℕ) × (hashed : ℕ → Bool) × HashRows oam hash rows hashed
    × ((j : ℕ) → base j ≡ true → hashed j ≡ true)

abbrev pub nothing : Objects
nothing j = false

abbrev pub HashValid : Bytes → (ℕ → ℕ) → Type 0
HashValid = HashValidFrom nothing
