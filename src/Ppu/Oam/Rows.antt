-- ===== src/Ppu/Oam/Rows.antt =====
-- The rows of `oam_hash` of emu/ppu.c next to one another, and while no object changes its row.
use realboy.Prelude.{
  ℕ, ◌+◌, ◌-◌, ◌*◌, ◌/◌, ◌≤◌, ◌<◌, ◌≡◌, refl, ap, ◌∙◌, sym, arith, inl, inr, Bool, Bool-cases, ltb,
  true, false, ◌&&◌, ◌==◌, if◌then◌else◌, List, [], ◌∷◌, Bytes, to_int, nth, length,
}
use realboy.Machine.Hash.{Held, total, HashRows}
use realboy.Ppu.Oam.Lists.{nth-beyond, put, total-put, length-le-total, tally-le}
use realboy.Ppu.Oam.Walks.{Outside}

module _ (oam : Bytes) (hash : ℕ → ℕ) (rows : ℕ → List ℕ) (hashed : ℕ → Bool)
    (v : HashRows oam hash rows hashed) where
  total-le : total 17 rows ≤ 40
  total-le = omega (arith, v.all_told, tally-le 40 hashed)

  pub length-le : (r : ℕ) → r < 17 → length (rows r) ≤ 40
  length-le r h = omega (arith, total-le, length-le-total 17 r rows h)

  -- Where a row is full, the next one is empty.
  next_empty : (r : ℕ) → r < 16 → length (rows r) ≡ 40 → length (rows (r + 1)) ≡ 0
  next_empty r h full =
      let others = total-put 17 r rows [] (omega arith) in
      let next = length-le-total 17 (r + 1) (put rows r []) (omega arith) in
      let same : length (put rows r [] (r + 1)) ≡ length (rows (r + 1)) = ground arith in
      omega (arith, others, next, same, total-le)

  nth-empty : (xs : List ℕ) → length xs ≡ 0 → nth xs 0 ≡ 0
  nth-empty [] e = refl
  nth-empty (x ∷ xs) e = absurd (omega arith)

  -- A row and the cell behind it.
  pub Held-full : (r : ℕ) → r < 16 → length (rows r) ≡ 40 → Held hash (r * 40) 41 (rows r)
  Held-full r h full i lt = elim (Bool-cases (i == 40)) [
    | inl last ↦
        let place : r * 40 + i ≡ (r + 1) * 40 + 0 = ground arith in
        ap hash place
        ∙ v.held (r + 1) (omega arith) 0 (omega arith)
        ∙ nth-empty (rows (r + 1)) (next_empty r h full)
        ∙ sym (nth-beyond (rows r) i (ground arith))
    | inr before ↦ v.held r (omega arith) i (ground arith)
  ]

-- The cells of a row, with the NULL behind the last object.
pub row-Held :
    (oam : Bytes) (hash : ℕ → ℕ) (rows : ℕ → List ℕ) (hashed : ℕ → Bool)
    → HashRows oam hash rows hashed
    → (r : ℕ) → r < 16
    → (n : ℕ) × Held hash (r * 40) n (rows r) × (length (rows r) < n) × (length (rows r) ≤ 40)
row-Held oam hash rows hashed v r h =
    let short = length-le oam hash rows hashed v r (omega arith) in
    elim (Bool-cases (length (rows r) == 40)) [
      | inl full ↦
          (41, Held-full oam hash rows hashed v r h (ground arith), omega (arith, short), short)
      | inr room ↦ (40, v.held r (omega arith), ground (arith, short), short)
    ]

-- The cells of a row are outside those of another.
pub rows_apart :
    (a r i n : ℕ) → (a == r) ≡ false → i < 40 → n ≤ 40 → Outside (a * 40) n (r * 40 + i)
rows_apart a r i n other lt le = elim (Bool-cases (ltb a r)) [
  | inl before ↦ inr (let less : a < r = ground arith in omega arith)
  | inr behind ↦ inl (let more : r < a = ground arith in omega arith)
]

pub if_apart : (at n i x y : ℕ) → Outside at (n + 1) i → (if at + n == i then x else y) ≡ y
if_apart at n i x y out = ground arith

pub ne_cells :
    (j k : ℕ) → (j == k) ≡ false → ((k * 4 + 1 == j * 4 + 1) ≡ false) × ((j * 4 == k * 4) ≡ false)
ne_cells j k e = ground arith

-- The counts of an object that stays, and of one that moves.
pub stays :
    (t u : Bool) (c0 c1 c2 : ℕ)
    → c1 ≡ c0 - (if t then 0 else 0)
    → c2 ≡ c1 + (if u then 0 else 0)
    → c2 ≡ c0
stays t u c0 c1 c2 e f = ground arith

pub moves :
    (hashed : Bool) (old new r c0 c1 c2 : ℕ)
    → (old == new) ≡ false
    → c0 ≡ to_int (hashed && old == r)
    → c1 ≡ c0 - (if old == r then 1 else 0)
    → c2 ≡ c1 + (if new == r then 1 else 0)
    → c2 ≡ to_int (new == r)
moves hashed old new r c0 c1 c2 d e f g = ground arith

pub eq_sound : (a b : ℕ) → (a == b) ≡ true → a ≡ b
eq_sound a b t = ground arith

pub eq_self : (n : ℕ) → (n == n) ≡ true
eq_self n = ground arith

-- A byte that leaves every object in its row.
module _ (oam : Bytes) (hash : ℕ → ℕ) (rows : ℕ → List ℕ) (hashed : ℕ → Bool)
    (v : HashRows oam hash rows hashed) (oam' : Bytes)
    (same : (j : ℕ) → j < 40 → oam' (j * 4) / 16 ≡ oam (j * 4) / 16) where
  pub kept-HashRows : HashRows oam' hash rows hashed
  kept-HashRows = record {
    held = v.held;
    cells = v.cells;
    once = λ r j h. rw (same j h) (v.once r j h);
    fresh = λ j h e. rw (same j h) (v.fresh j h e);
    all_told = v.all_told;
  }
