-- ===== src/Machine/ScreenState.antt =====
-- `dmg_buf` of render.c: a cell for each pixel of the display, line by line.
use realboy.Prelude.{ℕ, Bool, Option}

-- A cell is `none` where the pixel that was drawn has no determined value. `aborted` says that an
-- assertion on a pixel's place has failed, which ends the program.
pub record Screen : Type 0 where
  pub dmg_buf : ℕ → Option ℕ
  pub aborted : Bool
