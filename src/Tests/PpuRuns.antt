-- ===== src/Tests/PpuRuns.antt =====
-- The theorems of the ppu at the test machine, and at a picture with objects.
use realboy.Prelude.{
  List, ℕ, ◌-◌, ◌*◌, ◌/◌, ◌%◌, ◌≤◌, ◌≡◌, ◌⊎◌, refl, arith, false, ltb, ◌==◌, ◌||◌, if◌then◌else◌,
  update, some, none, [], ◌∷◌, length,
}
use realboy.Machine.{Ppu}
use realboy.Machine.Hash.{HashRows, HashValid}
use realboy.Machine.Valid.{PpuValid}
use realboy.Ppu.Oam.{oam_rehash}
use realboy.Ppu.Oam.Lists.{mark}
use realboy.Ppu.Oam.Rows.{kept-HashRows}
use realboy.Ppu.Port.ObjectMemory.{with_oam-Valid, oam_rehash-HashRows, rehash-HashValid}
use realboy.Ppu.Tile.{pixel_in_tile}
use realboy.Ppu.Objects.{
  obj_indx, get_tile_line_from_object, get_objs_at_xy, get_pixel_priority_from_objs,
}
use realboy.Ppu.Objects.Found.{InBox, All, Among}
use realboy.Ppu.Objects.Complete.{get_objs_at_xy_lem}
use realboy.Ppu.Objects.Priority.{
  Beats, get_pixel_priority_from_objs_lem, get_pixel_priority_from_objs-hidden,
}
use realboy.Ppu.Render.{obj_layer, in_window, final_pixel, ppu_render_line}
use realboy.Ppu.Render.Line.{within, ppu_render_line_lem}
use realboy.Ppu.Render.Layers.{stacked, map_texel, final_pixel-stacked}
use realboy.Ppu.Phase.{ppu_refresh}
use realboy.Ppu.Phase.Cycle.{InPhase, ppu_refresh-InPhase}
use realboy.Ppu.Phase.Picture.{ppu_refresh-aborted}
use realboy.Tests.Data.{one_object, test_ppu, test_machine, test_ppu-Valid}

in_oam_scan : InPhase test_machine
in_oam_scan = omega arith

ppu_refresh-InPhase_example : InPhase (ppu_refresh 2 test_machine)
ppu_refresh-InPhase_example = ppu_refresh-InPhase 2 test_machine in_oam_scan

ppu_refresh-aborted_example : (ppu_refresh 2 test_machine).screen.aborted ≡ false
ppu_refresh-aborted_example = ppu_refresh-aborted 2 test_machine in_oam_scan

-- The first object is hashed, for the first time.
oam_rehash-HashRows_example :
    (rows' : ℕ → List ℕ) × HashRows
      (update test_ppu.oam 0 0x20)
      (oam_rehash test_ppu 0 0x20).oam_hash
      rows'
      (mark test_ppu-Valid.hash_valid.1 0)
oam_rehash-HashRows_example =
    oam_rehash-HashRows test_ppu test_ppu-Valid 0x20 (omega arith) test_ppu-Valid.hash_valid.0
      test_ppu-Valid.hash_valid.1 test_ppu-Valid.hash_valid.2 0 (omega arith) refl

one_object-Valid : PpuValid one_object
one_object-Valid =
    with_oam-Valid test_ppu one_object.oam one_object.oam_hash test_ppu-Valid (λ i. ground arith)
      (rehash-HashValid test_ppu test_ppu-Valid 0x20 (omega arith) 0 (omega arith) refl)

hashed_twice : HashValid (update one_object.oam 4 0x20) (oam_rehash one_object 4 0x20).oam_hash
hashed_twice = rehash-HashValid one_object one_object-Valid 0x20 (omega arith) 1 (omega arith) refl

-- Both in the same column, and the first with a tile that is transparent.
abbrev two_objects : ℕ → ℕ
two_objects i =
    if i == 0 || i == 4
    then 0x20
    else (if i == 1 || i == 5 then 0x10 else (if i == 2 then 1 else 0))

abbrev picture : Ppu
picture = record one_object {
  regs = record test_ppu.regs { lcdc = 0xb3; ly = 20; scx = 250; wy = 200; bgp = 0xe4 };
  tile_data = λ i. if ltb i 16 then 255 else 0;
  oam = two_objects;
  oam_hash = (oam_rehash one_object 4 0x20).oam_hash;
}

picture-HashValid : HashValid two_objects (oam_rehash one_object 4 0x20).oam_hash
picture-HashValid =
    (_, _, kept-HashRows _ _ _ _ hashed_twice.2 two_objects (λ j h. ground arith), λ j e. absurd cc)

picture-Valid : PpuValid picture
picture-Valid = record {
  regs_valid = omega arith;
  tile_bytes = λ i. ground arith;
  map1_bytes = λ i. omega arith;
  map2_bytes = λ i. omega arith;
  oam_bytes = λ i. ground arith;
  hash_valid = picture-HashValid;
  dots_fit = omega arith;
  frames_fit = omega arith;
  vblank_dots_fit = omega arith;
}

get_objs_at_xy_lem_example :
    (let objs = get_objs_at_xy picture 10 20 in
      All (InBox picture 10 20) objs × (length objs ≤ 10) × ((10 ≤ length objs) ⊎ Among 4 objs))
get_objs_at_xy_lem_example =
    get_objs_at_xy_lem picture 10 20 1 picture-Valid (omega arith) (omega arith) (omega arith)
      (omega arith) (omega arith)

opaque_second : obj_indx picture 10 4 ≡ 3
unfolding obj_indx get_tile_line_from_object pixel_in_tile
opaque_second = refl

clear_first : obj_indx picture 10 0 ≡ 0
unfolding obj_indx get_tile_line_from_object pixel_in_tile
clear_first = refl

get_pixel_priority_from_objs-hidden_example :
    get_pixel_priority_from_objs picture 10 4 (0 ∷ []) ≡ (0, 0)
get_pixel_priority_from_objs-hidden_example =
    get_pixel_priority_from_objs-hidden picture 10 4 0 (omega arith) (omega arith) (omega arith)
      refl (ground (arith, opaque_second)) clear_first

-- Here the second object moves a column to the left.
abbrev apart : Ppu
apart = record picture { oam = update two_objects 5 0xf }

apart_first : obj_indx apart 10 0 ≡ 0
unfolding obj_indx get_tile_line_from_object pixel_in_tile
apart_first = refl

apart_second : obj_indx apart 10 4 ≡ 3
unfolding obj_indx get_tile_line_from_object pixel_in_tile
apart_second = refl

get_pixel_priority_from_objs_lem_example :
    let winner = get_pixel_priority_from_objs apart 10 0 (4 ∷ []) in
    Among winner.1 (0 ∷ 4 ∷ [])
    × (winner.0 ≡ obj_indx apart 10 winner.1)
    × All (Beats apart 10 winner) (0 ∷ 4 ∷ [])
get_pixel_priority_from_objs_lem_example =
    get_pixel_priority_from_objs_lem apart 10 (λ column. column == 0xf) 0 (4 ∷ [])
      (
        (omega arith, ground (arith, apart_first)),
        ((omega arith, ground (arith, apart_second)), tt),
      )

ppu_render_line_lem_example :
    ((ppu_render_line picture test_machine.screen).aborted ≡ false)
    × ((k : ℕ)
        → (ppu_render_line picture test_machine.screen).dmg_buf k ≡ (
            if within 3200 160 k
            then final_pixel picture ((k - 3200) / 8 * 8) ((k - 3200) % 8)
            else none))
ppu_render_line_lem_example = ppu_render_line_lem picture (omega arith) test_machine.screen

final_pixel-stacked_example :
    final_pixel picture 16 3
    ≡ stacked (obj_layer picture 19) none (some (map_texel picture 8 13 20)) 0xe4
unfolding in_window
final_pixel-stacked_example =
    final_pixel-stacked picture 2 3 picture-Valid (omega arith) (omega arith)
