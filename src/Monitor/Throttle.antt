-- ===== src/Monitor/Throttle.antt =====
-- monitor_throttle_fps() of monitor.c, and ppu_get_frame_count() of emu/ppu.c.
pub mod Pace
use realboy.Prelude.{
  ℕ, zero, ◌+◌, ◌-◌, ◌/◌, ◌%◌, ◌^◌, Bool, ltb, leb, ◌==◌, if◌then◌else◌, u32, sub32,
}
use realboy.Machine.{Ppu}

abbrev pub ppu_get_frame_count : Ppu → ℕ
ppu_get_frame_count s = s.frame_count

-- The static variables of the function; of `last` it reads the seconds alone. `sleep_factor` is the
-- 32-bit pattern of an `int`.
pub record Throttle : Type 0 where
  pub frame_count_last : ℕ
  pub last_sec : ℕ
  pub sleep_factor : ℕ

-- Whether it sleeps, and for how many nanoseconds. nanosleep() refuses a negative number, and one
-- of a second or more.
pub data Sleep : Type 0 where
  no_sleep divides_by_zero refused : Sleep
  sleeps : ℕ → Sleep

abbrev pub sleep_for : ℕ → Sleep
sleep_for sleep_factor =
    if sleep_factor == 0
    then divides_by_zero
    else (if ltb sleep_factor (2 ^ 31)
        then (if sleep_factor == 1 then refused else sleeps (1_000_000_000 / sleep_factor))
        else (if leb sleep_factor (2 ^ 32 - 1_000_000_001) then sleeps 0 else refused))

-- The frames since the last change of the second.
abbrev pub fps_of : Throttle → ℕ → ℕ
fps_of t frames = (frames + 2 ^ 64 - t.frame_count_last) % 2 ^ 64

unfoldable pub adjust : ℕ → ℕ → ℕ
adjust fps sleep_factor =
    if ltb 60 fps
    then sub32 sleep_factor 1
    else (if ltb fps 60 then u32 (sleep_factor + 1) else sleep_factor)

-- The body behind the first call, by whether the second has changed.
unfoldable pub throttle : Bool → ℕ → ℕ → Throttle → Throttle
unfolding adjust
throttle changed now_sec frames t =
    if changed
    then record {
      frame_count_last = frames;
      last_sec = now_sec;
      sleep_factor = adjust (fps_of t frames) t.sleep_factor;
    }
    else t

-- At the time `now_sec`, and a count of `frames`.
unfoldable pub monitor_throttle_fps : ℕ → ℕ → Throttle → Throttle × Sleep
unfolding throttle
monitor_throttle_fps now_sec frames t =
    let t' = throttle (ltb t.last_sec now_sec) now_sec frames t in
    if t.frame_count_last == 0
    then (record t { frame_count_last = frames; last_sec = now_sec }, no_sleep)
    else (t', sleep_for t'.sleep_factor)
