-- ===== src/Ppu/Render/Line.antt =====
-- About the loops of ppu_render_line() of emu/ppu.c, which draw into `dmg_buf` of render.c.
use realboy.Prelude.{
  ℕ, zero, suc, ◌+◌, ◌-◌, ◌*◌, ◌/◌, ◌%◌, ◌≤◌, ◌<◌, ◌≡◌, refl, ap, ◌∙◌, arith, inl, inr, Bool,
  Bool-cases, true, not, ◌&&◌, ◌||◌, ltb, leb, ◌==◌, if◌then◌else◌, if-cases, Option,
}
use realboy.Machine.{Ppu, Screen}
use realboy.Ppu.Render.{final_pixel, render_draw_pixel, render_tile, render_tiles, ppu_render_line}

-- `k` is one of `n` cells from `from` on.
abbrev pub within : ℕ → ℕ → ℕ → Bool
within from n k = leb from k && ltb k (from + n)

module _ (s : Ppu) (low : s.regs.ly ≤ 144) where
  abbrev base : ℕ
  base = s.regs.ly * 160

  drawn :
      (p : Screen) (x : ℕ) (pixel : Option ℕ)
      → x < 160
      → render_draw_pixel p x s.regs.ly pixel
        ≡ record p { dmg_buf = λ k. if base + x == k then pixel else p.dmg_buf k }
  unfolding render_draw_pixel
  drawn p x pixel h =
      if-cases
        (λ (q : Screen).
          q ≡ record p { dmg_buf = λ k. if base + x == k then pixel else p.dmg_buf k })
        (leb x 160 && leb s.regs.ly 144) _ _ (λ _. refl) (λ f. absurd (ground arith))

  tile_aborted :
      (n i j : ℕ) (p : Screen) → i + j + n ≤ 160 → (render_tile n s i j p).aborted ≡ p.aborted
  unfolding render_tile
  tile_aborted zero i j p h = refl
  tile_aborted (suc n) i j p h =
      ap (λ (q : Screen). (render_tile n s i (j + 1) q).aborted)
        (drawn p (i + j) (final_pixel s i j) (omega arith))
      ∙ tile_aborted n i (j + 1) _ (omega arith)

  tile_cell :
      (n i j : ℕ) (p : Screen) (k : ℕ)
      → i + j + n ≤ 160
      → (render_tile n s i j p).dmg_buf k
        ≡ (if within (base + i + j) n k then final_pixel s i (k - base - i) else p.dmg_buf k)
  unfolding render_tile
  tile_cell zero i j p k h = ground arith
  tile_cell (suc n) i j p k h =
      ap (λ (q : Screen). (render_tile n s i (j + 1) q).dmg_buf k)
        (drawn p (i + j) (final_pixel s i j) (omega arith))
      ∙ tile_cell n i (j + 1) _ k (omega arith)
      ∙ elim (Bool-cases (base + (i + j) == k)) [
        | inl here ↦
            let e : j ≡ k - base - i = ground arith in ground (arith, ap (final_pixel s i) e)
        | inr other ↦ ground arith
      ]

  tiles_aborted :
      (n i : ℕ) (p : Screen) → i + n * 8 ≤ 160 → (render_tiles n s i p).aborted ≡ p.aborted
  unfolding render_tiles
  tiles_aborted zero i p h = refl
  tiles_aborted (suc n) i p h =
      tiles_aborted n (i + 8) (render_tile 8 s i 0 p) (omega arith)
      ∙ tile_aborted 8 i 0 p (omega arith)

  -- The pixel that the loops draw at the cell `k` of the line.
  abbrev pixel_at : ℕ → Option ℕ
  pixel_at k = final_pixel s ((k - base) / 8 * 8) ((k - base) % 8)

  tiles_cell :
      (n c : ℕ) (p : Screen) (k : ℕ)
      → c + n ≤ 20
      → (render_tiles n s (c * 8) p).dmg_buf k
        ≡ (if within (base + c * 8) (n * 8) k then pixel_at k else p.dmg_buf k)
  unfolding render_tiles
  tiles_cell zero c p k h = ground arith
  tiles_cell (suc n) c p k h =
      ap (λ (i : ℕ). (render_tiles n s i (render_tile 8 s (c * 8) 0 p)).dmg_buf k) next
      ∙ tiles_cell n (c + 1) _ k (omega arith)
      ∙ elim (Bool-cases (within (base + c * 8) 8 k)) [
        | inl here ↦
            let e : (k - base) / 8 * 8 ≡ c * 8 = ground arith in
            let f : (k - base) % 8 ≡ k - base - c * 8 = ground arith in
            rw (e, f) (ground (arith, tile_cell 8 (c * 8) 0 p k))
        | inr other ↦ ground (arith, tile_cell 8 (c * 8) 0 p k)
      ]
    where
      next : c * 8 + 8 ≡ (c + 1) * 8
      next = omega arith

  -- For a line up to 144, ppu_render_line() fills the 160 cells of the line in `dmg_buf` with the
  -- pixels of their columns, changes no other cell, and no assertion fails.
  pub ppu_render_line_lem :
      (p : Screen)
      → ((ppu_render_line s p).aborted ≡ p.aborted)
        × ((k : ℕ)
            → (ppu_render_line s p).dmg_buf k ≡ (
                if within (s.regs.ly * 160) 160 k
                then final_pixel s ((k - s.regs.ly * 160) / 8 * 8) ((k - s.regs.ly * 160) % 8)
                else p.dmg_buf k))
  unfolding ppu_render_line
  ppu_render_line_lem p = (
    tiles_aborted 20 0 p (omega arith),
    λ k.
        tiles_cell 20 0 p k (omega arith)
        ∙ ap (λ (at : ℕ). if within at 160 k then pixel_at k else p.dmg_buf k) start,
  )
    where
      start : base + 0 * 8 ≡ s.regs.ly * 160
      start = omega arith

-- Below the last line that the buffer has, the assertion fails.
module _ (s : Ppu) (high : 144 < s.regs.ly) where
  refused :
      (p : Screen) (x : ℕ) (pixel : Option ℕ)
      → (render_draw_pixel p x s.regs.ly pixel).aborted ≡ true
  unfolding render_draw_pixel
  refused p x pixel =
      if-cases (λ (q : Screen). q.aborted ≡ true) (leb x 160 && leb s.regs.ly 144) _ _
        (λ t. absurd (ground arith)) (λ _. refl)

  tile_refused :
      (n i j : ℕ) (p : Screen) → p.aborted ≡ true → (render_tile n s i j p).aborted ≡ true
  unfolding render_tile
  tile_refused zero i j p h = h
  tile_refused (suc n) i j p h = tile_refused n i (j + 1) _ (refused p (i + j) (final_pixel s i j))

  tiles_refused : (n i : ℕ) (p : Screen) → p.aborted ≡ true → (render_tiles n s i p).aborted ≡ true
  unfolding render_tiles
  tiles_refused zero i p h = h
  tiles_refused (suc n) i p h = tiles_refused n (i + 8) _ (tile_refused 8 i 0 p h)

  line_refused : (p : Screen) → (ppu_render_line s p).aborted ≡ true
  unfolding ppu_render_line render_tiles render_tile
  line_refused p =
      tiles_refused 19 8 _ (tile_refused 7 0 1 _ (refused p (0 + 0) (final_pixel s 0 0)))

-- A line is drawn without a failure exactly where it is one of the buffer's.
pub aborted-ppu_render_line :
    (s : Ppu) (p : Screen) → (ppu_render_line s p).aborted ≡ p.aborted || not (leb s.regs.ly 144)
aborted-ppu_render_line s p = elim (Bool-cases (leb s.regs.ly 144)) [
  | inl low ↦ ground (arith, (ppu_render_line_lem s (ground arith) p).0)
  | inr high ↦ ground (arith, line_refused s (ground arith) p)
]
