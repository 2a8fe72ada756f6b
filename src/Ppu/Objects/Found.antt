-- ===== src/Ppu/Objects/Found.antt =====
-- About get_objs_at_xy() of emu/ppu.c: which objects it finds at a pixel.
use realboy.Prelude.{
  ℕ, zero, suc, ◌+◌, ◌-◌, ◌/◌, ◌≤◌, ◌<◌, ◌≡◌, arith, true, ◌||◌, leb, ◌==◌, if◌then◌else◌, if-cases,
  length, length-append, ◌⊎◌, List, [], ◌∷◌, ◌++◌, IsBytes, sub32,
}
use realboy.Machine.{Ppu}
use realboy.Ppu.Oam.{cells, row}
use realboy.Ppu.Objects.{obj_size, covers, objs_from, get_objs_at_xy}

-- The pixel lies in the box of the object, whose coordinates are 16 lines and 8 columns off.
abbrev pub InBox : Ppu → ℕ → ℕ → ℕ → Type 0
InBox s x y obj =
    (s.oam obj ≤ y + 16)
    × (y + 16 < s.oam obj + obj_size s)
    × (s.oam (obj + 1) ≤ x + 8)
    × (x + 8 < s.oam (obj + 1) + 8)

-- What holds of every item of a list.
abbrev pub All : (ℕ → Type 0) → List ℕ → Type 0
All P [] = Unit
All P (o ∷ os) = P o × All P os

-- One of the items of a list.
abbrev pub Among : ℕ → List ℕ → Type 0
Among o [] = ⊥
Among o (p ∷ ps) = (o ≡ p) ⊎ Among o ps

All-append : (P : ℕ → Type 0) (xs ys : List ℕ) → All P xs → All P ys → All P (xs ++ ys)
All-append P [] ys p q = q
All-append P (x ∷ xs) ys p q = (p.0, All-append P xs ys p.1 q)

below32 : (a b : ℕ) → a < 1000 → b < 256 → sub32 a b < 16 → (b ≤ a) × (a < b + sub32 a b + 1)
below32 a b p q r = ground arith

pub obj_size-le : (s : Ppu) → obj_size s ≤ 16
obj_size-le s = ground arith

module _ (s : Ppu) (x y : ℕ) (bytes : IsBytes s.oam) (inside : x < 160) (line : y < 256) where
  covers-InBox : (obj : ℕ) → covers s x y obj ≡ true → InBox s x y obj
  unfolding covers
  covers-InBox obj t = ground (arith, bytes obj, bytes (obj + 1))

  pub InBox-covers : (obj : ℕ) → InBox s x y obj → covers s x y obj ≡ true
  unfolding covers
  InBox-covers obj b = ground (arith, bytes obj, bytes (obj + 1))

  objs_from-InBox : (fuel obj num : ℕ) → All (InBox s x y) (objs_from fuel s x y obj num)
  unfolding objs_from
  objs_from-InBox zero obj num = tt
  objs_from-InBox (suc fuel) obj num =
      let cell = s.oam_hash obj in
      let hit = covers s x y (cell - 1) in
      let rest = objs_from-InBox fuel (obj + 1) (if hit then num + 1 else num) in
      if-cases (All (InBox s x y)) (cell == 0 || leb 10 num) _ _ (λ _. tt)
        (λ _.
          if-cases (All (InBox s x y)) hit _ _ (λ t. (covers-InBox (cell - 1) t, rest)) (λ _. rest))

  length-objs_from :
      (fuel obj num : ℕ) → num ≤ 10 → num + length (objs_from fuel s x y obj num) ≤ 10
  unfolding objs_from
  length-objs_from zero obj num h = omega arith
  length-objs_from (suc fuel) obj num h =
      let cell = s.oam_hash obj in
      let hit = covers s x y (cell - 1) in
      ground (arith, length-objs_from fuel (obj + 1) (num + 1), length-objs_from fuel (obj + 1) num)

  pub get_objs_at_xy-InBox :
      All (InBox s x y) (get_objs_at_xy s x y) × (length (get_objs_at_xy s x y) ≤ 10)
  unfolding get_objs_at_xy
  get_objs_at_xy-InBox =
      let low = row (y / 16) in
      let high = row ((y + 16) / 16) in
      let objs = objs_from (cells - low) s x y low 0 in
      let first = length-objs_from (cells - low) low 0 (omega arith) in
      (
        All-append (InBox s x y) objs _ (objs_from-InBox (cells - low) low 0)
            (objs_from-InBox (cells - high) high (length objs)),
        omega (
          arith,
          length-append objs (objs_from (cells - high) s x y high (length objs)),
          first,
          length-objs_from (cells - high) high (length objs),
        ),
      )
