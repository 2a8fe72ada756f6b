-- ===== src/Ppu/Oam/Rehash.antt =====
-- About oam_rehash() of emu/ppu.c: an object leaves the row of its old coordinate, and is appended
-- to that of its new one.
use realboy.Prelude.{
  ℕ, ◌+◌, ◌-◌, ◌*◌, ◌/◌, ◌≤◌, ◌<◌, ◌≡◌, refl, ap, ◌∙◌, subst, sym, arith, inl, inr, Bool,
  Bool-cases, true, false, ◌&&◌, ◌==◌, if◌then◌else◌, if-cases, update, List, [], ◌∷◌, ◌++◌, Bytes,
  IsBytes, to_int, length, length-append, count,
}
use realboy.Machine.Hash.{Cells, Held, total, tally, HashRows}
use realboy.Ppu.Oam.{cells, row, unlink, free_cell}
use realboy.Ppu.Oam.Lists.{
  remove, put, mark, total-put, length-le-total, tally-mark, tally-le, length-remove, count-remove,
  count-append, Cells-remove, Cells-append,
}
use realboy.Ppu.Oam.Walks.{Outside, unlink_lem, free_cell_lem, Held-append}
use realboy.Ppu.Oam.Rows.{
  length-le, Held-full, rows_apart, if_apart, ne_cells, stays, moves, eq_sound, eq_self,
}

-- An object moves from a row to another.
module _ (oam : Bytes) (hash : ℕ → ℕ) (rows : ℕ → List ℕ) (hashed : ℕ → Bool)
    (v : HashRows oam hash rows hashed) (bytes : IsBytes oam) (j value : ℕ) (inside : j < 40)
    (fits : value < 256) (moved : (oam (j * 4) / 16 == value / 16) ≡ false) where
  abbrev p : ℕ
  p = j * 4 + 1

  abbrev old : ℕ
  old = oam (j * 4) / 16

  abbrev new : ℕ
  new = value / 16

  old-lt : old < 16
  old-lt = omega (arith, bytes (j * 4))

  abbrev unlinked : ℕ → ℕ
  unlinked = unlink (cells - row old) hash (row old) p false

  abbrev rows1 : ℕ → List ℕ
  rows1 = put rows old (remove p (rows old))

  unlinked-old :
      Held unlinked (old * 40) 40 (remove p (rows old))
      × ((i : ℕ) → Outside (old * 40) (length (rows old)) i → unlinked i ≡ hash i)
  unlinked-old =
      let short = length-le oam hash rows hashed v old (omega (arith, old-lt)) in
      elim (Bool-cases (length (rows old) == 40)) [
        | inl full ↦
            let r =
              unlink_lem (rows old) (cells - row old) hash (row old) 41 p (v.cells old)
                (Held-full oam hash rows hashed v old old-lt (ground arith)) (omega (arith, short))
                (omega (arith, old-lt, short)) in
            (λ i lt. r.0 i (omega arith), r.1)
        | inr room ↦
            unlink_lem (rows old) (cells - row old) hash (row old) 40 p (v.cells old)
              (v.held old (omega (arith, old-lt))) (ground (arith, short))
              (omega (arith, old-lt, short))
      ]

  count-old : count p (rows old) ≡ to_int (hashed j)
  count-old = ground (arith, v.once old j inside)

  once_old : count p (rows old) ≤ 1
  once_old = ground (arith, count-old)

  rows1-Held : (r : ℕ) → r < 17 → Held unlinked (r * 40) 40 (rows1 r)
  rows1-Held r h i lt = elim (Bool-cases (old == r)) [
    | inl at ↦
        let e : old ≡ r = ground arith in
        let place : r * 40 + i ≡ old * 40 + i = ground arith in
        rw (at) (ap unlinked place ∙ unlinked-old.0 i lt)
    | inr other ↦
        let short = length-le oam hash rows hashed v old (omega (arith, old-lt)) in
        rw (other) (
          unlinked-old.1 (r * 40 + i) (rows_apart old r i (length (rows old)) other lt short)
          ∙ v.held r h i lt)
  ]

  short_row : length (rows1 new) + 1 ≤ 40
  short_row =
      let rest = total-put 17 old rows (remove p (rows old)) (omega (arith, old-lt)) in
      let gone = length-remove p (rows old) once_old in
      let marked = tally-mark 40 j hashed inside in
      omega (
        arith,
        rest,
        gone,
        marked,
        v.all_told,
        count-old,
        tally-le 40 (mark hashed j),
        length-le-total 17 new rows1 (omega arith),
      )

  total-rows1 : total 17 rows1 + to_int (hashed j) ≡ total 17 rows
  total-rows1 = omega (
    arith,
    total-put 17 old rows (remove p (rows old)) (omega (arith, old-lt)),
    length-remove p (rows old) once_old,
    count-old,
  )

  cells1 : (r : ℕ) → Cells (rows1 r)
  cells1 r =
      if-cases Cells (old == r) _ _ (λ _. Cells-remove p (rows old) (v.cells old)) (λ _. v.cells r)

  free_place : free_cell (cells - row new) unlinked (row new) ≡ new * 40 + length (rows1 new)
  free_place =
      free_cell_lem (rows1 new) (cells - row new) unlinked (row new) 40 (cells1 new)
        (rows1-Held new (omega arith)) (omega (arith, short_row)) (omega (arith, short_row))

  abbrev rows2 : ℕ → List ℕ
  rows2 = put rows1 new (rows1 new ++ (p ∷ []))

  abbrev rehashed : ℕ → ℕ
  rehashed = update unlinked (free_cell (cells - row new) unlinked (row new)) p

  rows2-Held : (r : ℕ) → r < 17 → Held rehashed (r * 40) 40 (rows2 r)
  rows2-Held r h i lt = rw free_place (elim (Bool-cases (new == r)) [
    | inl at ↦
        let e : new ≡ r = ground arith in
        let place : r * 40 + i ≡ new * 40 + i = ground arith in
        rw (at) (
          ap (update unlinked (new * 40 + length (rows1 new)) p) place
          ∙ Held-append unlinked (new * 40) 40 (rows1 new) p (rows1-Held new (omega arith)) i lt)
    | inr other ↦
        let apart = rows_apart new r i (length (rows1 new) + 1) other lt short_row in
        rw (other) (
          if_apart (new * 40) (length (rows1 new)) (r * 40 + i) p (unlinked (r * 40 + i)) apart
          ∙ rows1-Held r h i lt)
  ])

  -- How often an object is in a row, before and behind.
  count-rows1 :
      (q r : ℕ) → count q (rows1 r) ≡ count q (rows r) - (if old == r then to_int (q == p) else 0)
  count-rows1 q r = elim (Bool-cases (old == r)) [
    | inl at ↦
        let e : old ≡ r = ground arith in
        rw (at) (count-remove q p (rows old) ∙ ap (λ (k : ℕ). count q (rows k) - to_int (q == p)) e)
    | inr other ↦ rw (other) (omega arith)
  ]

  count-rows2 :
      (q r : ℕ) → count q (rows2 r) ≡ count q (rows1 r) + (if new == r then to_int (q == p) else 0)
  count-rows2 q r = elim (Bool-cases (new == r)) [
    | inl at ↦
        let e : new ≡ r = ground arith in
        rw (at)
          (count-append q (rows1 new) p ∙ ap (λ (k : ℕ). count q (rows1 k) + to_int (q == p)) e)
    | inr other ↦ rw (other) (omega arith)
  ]

  once2_moved :
      (r : ℕ)
      → count p (rows2 r) ≡ to_int (mark hashed j j && update oam (j * 4) value (j * 4) / 16 == r)
  once2_moved r =
      let one = eq_self p in
      rw (eq_self j, eq_self (j * 4))
        (moves (hashed j) old new r (count p (rows r)) (count p (rows1 r)) (count p (rows2 r)) moved
          (v.once r j inside)
          (count-rows1 p r
            ∙ ap (λ (b : Bool). count p (rows r) - (if old == r then to_int b else 0)) one)
          (count-rows2 p r
            ∙ ap (λ (b : Bool). count p (rows1 r) + (if new == r then to_int b else 0)) one))

  once2_other :
      (r k : ℕ)
      → k < 40
      → (j == k) ≡ false
      → count (k * 4 + 1) (rows2 r)
        ≡ to_int (mark hashed j k && update oam (j * 4) value (k * 4) / 16 == r)
  once2_other r k h other =
      let q = k * 4 + 1 in
      let ne = ne_cells j k other in
      rw (other, ne.1)
        (stays (old == r) (new == r) (count q (rows r)) (count q (rows1 r)) (count q (rows2 r))
            (count-rows1 q r
              ∙ ap (λ (b : Bool). count q (rows r) - (if old == r then to_int b else 0)) ne.0)
            (count-rows2 q r
              ∙ ap (λ (b : Bool). count q (rows1 r) + (if new == r then to_int b else 0)) ne.0)
          ∙ v.once r k h)

  once2 :
      (r k : ℕ)
      → k < 40
      → count (k * 4 + 1) (rows2 r)
        ≡ to_int (mark hashed j k && update oam (j * 4) value (k * 4) / 16 == r)
  once2 r k h = elim (Bool-cases (j == k)) [
    | inl same ↦
        let e : j ≡ k = eq_sound j k same in
        subst
          (λ (i : ℕ).
            count (i * 4 + 1) (rows2 r)
            ≡ to_int (mark hashed j i && update oam (j * 4) value (i * 4) / 16 == r))
          e (once2_moved r)
    | inr other ↦ once2_other r k h other
  ]

  fresh2 : (k : ℕ) → k < 40 → mark hashed j k ≡ false → update oam (j * 4) value (k * 4) / 16 ≡ 0
  fresh2 k h e = elim (Bool-cases (j == k)) [
    | inl same ↦ absurd (marked same e)
    | inr other ↦ rw ((ne_cells j k other).1) (v.fresh k h (unmarked other e))
  ]
    where
      marked : (j == k) ≡ true → mark hashed j k ≡ false → ⊥
      marked same e = let f : mark hashed j k ≡ true = rw same refl in cc

      unmarked : (j == k) ≡ false → mark hashed j k ≡ false → hashed k ≡ false
      unmarked other e = let f : mark hashed j k ≡ hashed k = rw other refl in sym f ∙ e

  all_told2 : total 17 rows2 ≡ tally 40 (mark hashed j)
  all_told2 = omega (
    arith,
    total-put 17 new rows1 (rows1 new ++ (p ∷ [])) (omega arith),
    length-append (rows1 new) (p ∷ []),
    total-rows1,
    tally-mark 40 j hashed inside,
    v.all_told,
  )

  cells2 : (r : ℕ) → Cells (rows2 r)
  cells2 r =
      if-cases Cells (new == r) _ _ (λ _. Cells-append (rows1 new) p (cells1 new) (omega arith))
        (λ _. cells1 r)

  pub rehashed-HashRows : HashRows (update oam (j * 4) value) rehashed rows2 (mark hashed j)
  rehashed-HashRows = record {
    held = rows2-Held;
    cells = cells2;
    once = once2;
    fresh = fresh2;
    all_told = all_told2;
  }
