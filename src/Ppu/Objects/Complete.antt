-- ===== src/Ppu/Objects/Complete.antt =====
-- About get_objs_at_xy() of emu/ppu.c: that no object at a pixel is missed.
use realboy.Prelude.{
  ℕ, zero, suc, ◌+◌, ◌-◌, ◌*◌, ◌/◌, ◌≤◌, ◌<◌, ◌≡◌, ap, ◌∙◌, sym, subst, arith, inl, inr, ◌⊎◌,
  Bool-cases, true, ◌||◌, leb, ◌==◌, if◌then◌else◌, if-cases, List, [], ◌∷◌, ◌++◌, length,
  length-append, count,
}
use realboy.Machine.{Ppu}
use realboy.Machine.Valid.{PpuValid}
use realboy.Machine.Hash.{Cells, Held}
use realboy.Ppu.Oam.{cells, row}
use realboy.Ppu.Oam.Walks.{Held-tail, Held-head}
use realboy.Ppu.Oam.Rows.{row-Held}
use realboy.Ppu.Objects.{covers, objs_from, get_objs_at_xy}
use realboy.Ppu.Objects.Found.{InBox, Among, obj_size-le, InBox-covers, All, get_objs_at_xy-InBox}

Among-left : (o : ℕ) (xs ys : List ℕ) → Among o xs → Among o (xs ++ ys)
Among-left o [] ys h = absurd h
Among-left o (x ∷ xs) ys (inl e) = inl e
Among-left o (x ∷ xs) ys (inr h) = inr (Among-left o xs ys h)

Among-right : (o : ℕ) (xs ys : List ℕ) → Among o ys → Among o (xs ++ ys)
Among-right o [] ys h = h
Among-right o (x ∷ xs) ys h = inr (Among-right o xs ys h)

module _ (obj : ℕ) where
  -- Ten objects are reached, or the object is found.
  abbrev Settled : ℕ → List ℕ → Type 0
  Settled num found = (10 ≤ num + length found) ⊎ Among obj found

  Settled-cons :
      (k num o : ℕ) (found : List ℕ) → k ≤ num + 1 → Settled k found → Settled num (o ∷ found)
  Settled-cons k num o found le (inl many) = inl (omega arith)
  Settled-cons k num o found le (inr there) = inr (inr there)

  Settled-le : (k num : ℕ) (found : List ℕ) → k ≤ num → Settled k found → Settled num found
  Settled-le k num found le (inl many) = inl (omega arith)
  Settled-le k num found le (inr there) = inr there

module _ (s : Ppu) (x y obj : ℕ) (here : covers s x y obj ≡ true) where
  objs_from-Settled :
      (xs : List ℕ) (fuel at n num : ℕ)
      → Cells xs
      → Held s.oam_hash at n xs
      → length xs < n
      → length xs < fuel
      → 0 < count (obj + 1) xs
      → Settled obj num (objs_from fuel s x y at num)
  unfolding objs_from
  objs_from-Settled xs zero at n num cs held less enough there = absurd (omega arith)
  objs_from-Settled xs (suc fuel) at zero num cs held less enough there = absurd (omega arith)
  objs_from-Settled [] (suc fuel) at (suc n) num cs held less enough there = absurd (omega arith)
  objs_from-Settled (c ∷ xs) (suc fuel) at (suc n) num cs held less enough there =
      let first = Held-head s.oam_hash at (suc n) (c ∷ xs) (omega arith) held in
      let cell = s.oam_hash at in
      let hit = covers s x y (cell - 1) in
      let next = λ (k : ℕ) (later : 0 < count (obj + 1) xs).
        objs_from-Settled xs fuel (at + 1) n k cs.1 (Held-tail s.oam_hash at n c xs held)
          (omega arith) (omega arith) later in
      if-cases (Settled obj num) (cell == 0 || leb 10 num) _ _
        (λ t. inl (ground (arith, first, cs.0)))
        (λ _. elim (Bool-cases (obj + 1 == c)) [
          | inl same ↦
              let e : cell - 1 ≡ obj = ground (arith, first) in
              let covered : hit ≡ true = ap (covers s x y) e ∙ here in
              if-cases (Settled obj num) hit _ _ (λ _. inr (inl (sym e))) (λ f. cc)
          | inr other ↦
              let k = if hit then num + 1 else num in
              let rest = next k (ground arith) in
              if-cases (Settled obj num) hit _ _
                (λ t. Settled-cons obj k num (cell - 1) _ (ground arith) rest)
                (λ f. Settled-le obj k num _ (ground arith) rest)
        ])

module _ (s : Ppu) (v : PpuValid s) (j : ℕ) (object : j < 40) (low : 16 ≤ s.oam (j * 4)) where
  -- The object is in the row of its coordinate, which is none of the first.
  listed : 0 < count (j * 4 + 1) (v.hash_valid.0 (s.oam (j * 4) / 16))
  listed =
      let hash = v.hash_valid.2 in
      let once = hash.once (s.oam (j * 4) / 16) j object in
      elim (Bool-cases (v.hash_valid.1 j)) [
        | inl hashed ↦ ground (arith, once, hashed)
        | inr never ↦ let zero_row = hash.fresh j object never in absurd (omega (arith, zero_row))
      ]

  -- A walk over that row finds it.
  walked :
      (x y num : ℕ)
      → covers s x y (j * 4) ≡ true
      → let r = s.oam (j * 4) / 16 in
        Settled (j * 4) num (objs_from (cells - row r) s x y (row r) num)
  walked x y num here =
      let (rows, hashed, hash, from) = v.hash_valid in
      let r = s.oam (j * 4) / 16 in
      let small : r < 16 = omega (arith, v.oam_bytes (j * 4)) in
      let (n, held, less, short) = row-Held s.oam s.oam_hash rows hashed hash r small in
      objs_from-Settled s x y (j * 4) here (rows r) (cells - row r) (row r) n num (hash.cells r)
        held less (omega arith) listed

-- Two lists of objects behind one another.
module _ (obj : ℕ) (first second : List ℕ) where
  joined_left : Settled obj 0 first → (10 ≤ length (first ++ second)) ⊎ Among obj (first ++ second)
  joined_left (inl many) = inl (omega (arith, length-append first second))
  joined_left (inr there) = inr (Among-left obj first second there)

  joined_right :
      Settled obj (length first) second
      → (10 ≤ length (first ++ second)) ⊎ Among obj (first ++ second)
  joined_right (inl many) = inl (omega (arith, length-append first second))
  joined_right (inr there) = inr (Among-right obj first second there)

get_objs_at_xy_complete :
    (s : Ppu) (x y j : ℕ)
    → PpuValid s
    → x < 160
    → y < 256
    → j < 40
    → 16 ≤ s.oam (j * 4)
    → InBox s x y (j * 4)
    → (10 ≤ length (get_objs_at_xy s x y)) ⊎ Among (j * 4) (get_objs_at_xy s x y)
unfolding get_objs_at_xy
get_objs_at_xy_complete s x y j v inside line object low box =
    let here = InBox-covers s x y v.oam_bytes inside line (j * 4) box in
    let r = s.oam (j * 4) / 16 in
    let first = objs_from (cells - row (y / 16)) s x y (row (y / 16)) 0 in
    let second =
      objs_from (cells - row ((y + 16) / 16)) s x y (row ((y + 16) / 16)) (length first) in
    elim (Bool-cases (r == y / 16)) [
      | inl in_first ↦
          let e : r ≡ y / 16 = ground arith in
          joined_left (j * 4) first second (
            subst (λ (k : ℕ). Settled (j * 4) 0 (objs_from (cells - row k) s x y (row k) 0)) e
              (walked s v j object low x y 0 here))
      | inr in_second ↦
          let e : r ≡ (y + 16) / 16 = ground (arith, obj_size-le s) in
          joined_right (j * 4) first second (
            subst
              (λ (k : ℕ).
                Settled (j * 4) (length first)
                  (objs_from (cells - row k) s x y (row k) (length first)))
              e (walked s v j object low x y (length first) here))
    ]

-- In a valid ppu, at a pixel that is in the box of an object whose coordinate is 16 or more,
-- get_objs_at_xy() finds ten objects at most, the pixel is in the box of each, and that object is
-- found unless ten are.
pub get_objs_at_xy_lem :
    (s : Ppu) (x y j : ℕ)
    → PpuValid s
    → x < 160
    → y < 256
    → j < 40
    → 16 ≤ s.oam (j * 4)
    → InBox s x y (j * 4)
    → (let objs = get_objs_at_xy s x y in
        All (InBox s x y) objs × (length objs ≤ 10) × ((10 ≤ length objs) ⊎ Among (j * 4) objs))
get_objs_at_xy_lem s x y j v inside line object low box =
    let (boxes, ten) = get_objs_at_xy-InBox s x y v.oam_bytes inside line in
    (boxes, ten, get_objs_at_xy_complete s x y j v inside line object low box)
