-- ===== src/Ppu/Objects.antt =====
-- The objects at a pixel: get_objs_at_xy(), get_tile_line_from_object() and
-- get_pixel_priority_from_objs() of emu/ppu.c. An object is the offset of its first byte in
-- `ppu.oam`, where the code has a pointer.
pub mod Found
pub mod Complete
pub mod Priority
use realboy.Prelude.{
  ℕ, zero, suc, ◌+◌, ◌-◌, ◌*◌, ◌/◌, Bool, not, ◌&&◌, ◌||◌, bit_and, ltb, leb, ◌==◌, if◌then◌else◌,
  to_bool, u8, sub8, sub32, List, [], ◌∷◌, ◌++◌, length,
}
use realboy.Machine.{Ppu}
use realboy.Ppu.Oam.{cells, row}
use realboy.Ppu.Tile.{tile_word, pixel_in_tile}

abbrev pub obj_size : Ppu → ℕ
obj_size s = if to_bool (bit_and s.regs.lcdc 4) then 16 else 8

-- The test of get_objs_at_xy(), in uint32_t.
unfoldable pub covers : Ppu → ℕ → ℕ → ℕ → Bool
covers s x y obj =
    ltb (sub32 (y + 16) (s.oam obj)) (obj_size s) && ltb (sub32 (x + 8) (s.oam (obj + 1))) 8

-- `while (*obj && num_objs < 10)`: the objects that are appended to `objs`. The fuel is one unit
-- for each cell of `oam_hash` from `obj` on.
unfoldable pub objs_from : ℕ → Ppu → ℕ → ℕ → ℕ → ℕ → List ℕ
objs_from zero s x y obj num_objs = []
objs_from (suc fuel) s x y obj num_objs =
    let cell = s.oam_hash obj in
    let hit = covers s x y (cell - 1) in
    let rest = objs_from fuel s x y (obj + 1) (if hit then num_objs + 1 else num_objs) in
    if cell == 0 || leb 10 num_objs then [] else (if hit then (cell - 1) ∷ rest else rest)

-- The rows of `oam_hash` for an object that starts up to 16 lines above, and for the line itself.
unfoldable pub get_objs_at_xy : Ppu → ℕ → ℕ → List ℕ
get_objs_at_xy s x y =
    let low = row (y / 16) in
    let high = row ((y + 16) / 16) in
    let objs = objs_from (cells - low) s x y low 0 in
    objs ++ objs_from (cells - high) s x y high (length objs)

-- The offset in `ppu.tile_data` of a line of an object, which is below its size for the objects of
-- get_objs_at_xy().
unfoldable pub obj_tile_at : Ppu → ℕ → ℕ → ℕ
obj_tile_at s obj line =
    s.oam (obj + 2) * 16
    + (if to_bool (bit_and (s.oam (obj + 3)) 0x40) then (obj_size s - 1 - line) * 2 else line * 2)

unfoldable pub get_tile_line_from_object : Ppu → ℕ → ℕ → ℕ
unfolding obj_tile_at
get_tile_line_from_object s obj line = tile_word s (obj_tile_at s obj line)

-- The first part of the loop of get_pixel_priority_from_objs(): the index `indx` of an object.
unfoldable pub obj_indx : Ppu → ℕ → ℕ → ℕ
obj_indx s x obj =
    let tileline = get_tile_line_from_object s obj (sub8 (s.regs.ly + 16) (s.oam obj)) in
    let flip_x = to_bool (bit_and (s.oam (obj + 3)) 0x20) in
    let beg_pixel_in_tile =
      if flip_x then u8 (7 + s.oam (obj + 1) + 256 - x) else sub8 x (s.oam (obj + 1)) in
    pixel_in_tile tileline beg_pixel_in_tile

-- `for (int j = 0; j < 40; j++)`: the offset where the walk over the objects ends.
unfoldable pub first_of : ℕ → ℕ → ℕ → ℕ → ℕ
first_of zero oam a b = oam
first_of (suc n) oam a b =
    let rest = first_of n (oam + 4) a b in if oam == a || oam == b then oam else rest

-- One round of the loop, with `pixel` and `curr_priority` (which `*out_obj` follows).
unfoldable pub prioritize : Ppu → ℕ → ℕ × ℕ → ℕ → ℕ × ℕ
prioritize s x (pixel, curr_priority) obj =
    let indx = obj_indx s x obj in
    let obj_x = s.oam (obj + 1) in
    let curr_x = s.oam (curr_priority + 1) in
    if pixel == 0 || leb obj_x curr_x
    then (if not (pixel == 0) && obj_x == curr_x
        then (if first_of 40 0 obj curr_priority == obj
            then (indx, obj)
            else (pixel, curr_priority))
        else (if indx == 0 then (pixel, curr_priority) else (indx, obj)))
    else (pixel, curr_priority)

unfoldable pub prioritize_all : Ppu → ℕ → ℕ × ℕ → List ℕ → ℕ × ℕ
prioritize_all s x best [] = best
prioritize_all s x best (obj ∷ objs) = prioritize_all s x (prioritize s x best obj) objs

-- The pixel of the objects `obj ∷ objs`, and the object that it belongs to.
unfoldable pub get_pixel_priority_from_objs : Ppu → ℕ → ℕ → List ℕ → ℕ × ℕ
get_pixel_priority_from_objs s x obj objs = prioritize_all s x (obj_indx s x obj, obj) objs
