-- ===== src/Monitor/Throttle/Pace.antt =====
-- The waits of monitor_throttle_fps() of monitor.c, call after call.
use realboy.Prelude.{
  ℕ, ◌+◌, ◌*◌, ◌/◌, ◌^◌, ◌≤◌, ◌<◌, ◌≡◌, arith, Bool, true, false, Bool-cases, if-cases, inl, inr,
  ◌⊎◌, subst, sym, ltb, ◌==◌, List, [], ◌∷◌, length,
}
use native.Mathlib.Nat.{div-le_of_le-mul}
use realboy.Monitor.Throttle.{
  Throttle, Sleep, no_sleep, sleeps, sleep_for, fps_of, adjust, throttle, monitor_throttle_fps,
}

-- The waits of a series of calls, each at a time and a count of frames.
unfoldable pub slept : List (ℕ × ℕ) → Throttle → List Sleep
slept [] t = []
slept ((now_sec, frames) ∷ calls) t =
    let next = monitor_throttle_fps now_sec frames t in next.1 ∷ slept calls next.0

-- What nanosleep() and one call for each frame are taken to bring about: from one change of the
-- second to the next, no more than twice `sleep_factor` frames come.
pub data Paced : List (ℕ × ℕ) → Throttle → Type 0 where
  paced_end : (t : Throttle) → Paced [] t
  paced_by :
      (t : Throttle) (now_sec frames : ℕ) (calls : List (ℕ × ℕ))
      → (t.frame_count_last == 0 ≡ false
          → ltb t.last_sec now_sec ≡ true
          → fps_of t frames ≤ 2 * t.sleep_factor)
      → Paced calls (monitor_throttle_fps now_sec frames t).0
      → Paced ((now_sec, frames) ∷ calls) t

-- A wait that is not refused and does not divide by zero, of a thirtieth of a second at most.
pub data Fair : Sleep → Type 0 where
  fair_skip : Fair no_sleep
  fair_wait : (ns : ℕ) → ns ≤ 33_333_334 → Fair (sleeps ns)

pub data AllFair : List Sleep → Type 0 where
  fair_end : AllFair []
  fair_then : (w : Sleep) (ws : List Sleep) → Fair w → AllFair ws → AllFair (w ∷ ws)

adjust_bounds :
    (fps f top : ℕ)
    → fps ≤ 2 * f
    → 30 ≤ f
    → f ≤ top
    → top < 2 ^ 31
    → (30 ≤ adjust fps f) × (adjust fps f ≤ top + 1)
unfolding adjust
adjust_bounds fps f top h k l m = (ground arith, ground arith)

sleep_for_lem : (f : ℕ) → 30 ≤ f → f < 2 ^ 31 → sleep_for f ≡ sleeps (1_000_000_000 / f)
sleep_for_lem f h k = ground arith

sleep_for-Fair : (f : ℕ) → 30 ≤ f → f < 2 ^ 31 → Fair (sleep_for f)
sleep_for-Fair f h k =
    subst Fair (sym (sleep_for_lem f h k))
      (fair_wait (1_000_000_000 / f) (div-le_of_le-mul f (omega arith)))

-- The factor and the wait that a call leaves.
abbrev Kept : ℕ → Throttle × Sleep → Type 0
Kept top (t, w) = (30 ≤ t.sleep_factor) × (t.sleep_factor ≤ top + 1) × Fair w

throttle-Kept :
    (t : Throttle) (now_sec frames top : ℕ)
    → 30 ≤ t.sleep_factor
    → t.sleep_factor ≤ top
    → top + 1 < 2 ^ 31
    → (t.frame_count_last == 0 ≡ false
        → ltb t.last_sec now_sec ≡ true
        → fps_of t frames ≤ 2 * t.sleep_factor)
    → Kept top (monitor_throttle_fps now_sec frames t)
unfolding monitor_throttle_fps throttle
throttle-Kept t now_sec frames top h k l paced =
    if-cases (Kept top) (t.frame_count_last == 0) _ _ (λ first. (h, omega arith, fair_skip))
      (λ later. by_second later (Bool-cases (ltb t.last_sec now_sec)))
  where
    kept : Bool → Type 0
    kept changed =
        let t' = throttle changed now_sec frames t in Kept top (t', sleep_for t'.sleep_factor)

    by_second :
        t.frame_count_last == 0 ≡ false
        → (ltb t.last_sec now_sec ≡ true) ⊎ (ltb t.last_sec now_sec ≡ false)
        → kept (ltb t.last_sec now_sec)
    by_second later (inl changed) = subst kept (sym changed) (
        let (low, high) =
          adjust_bounds (fps_of t frames) t.sleep_factor top (paced later changed) h k
            (omega arith) in
        (low, high, sleep_for-Fair _ low (omega arith)))
    by_second later (inr same) =
        subst kept (sym same) (h, omega arith, sleep_for-Fair _ h (omega arith))

-- Where from one change of the second to the next at most twice `sleep_factor` frames come, and
-- `sleep_factor` is 30 at least and, with the number of calls, fits an int, monitor_throttle_fps()
-- never divides by zero, and waits a thirtieth of a second at most, rounded up.
pub slept-AllFair :
    (calls : List (ℕ × ℕ)) (t : Throttle) (top : ℕ)
    → Paced calls t
    → 30 ≤ t.sleep_factor
    → t.sleep_factor ≤ top
    → top + length calls < 2 ^ 31
    → AllFair (slept calls t)
unfolding slept
slept-AllFair [] t top paced h k l = fair_end
slept-AllFair ((now_sec, frames) ∷ calls) t top (paced_by _ _ _ _ bound paced) h k l =
    let (low, high, fair) = throttle-Kept t now_sec frames top h k (omega arith) bound in
    fair_then _ _ fair (
      slept-AllFair calls (monitor_throttle_fps now_sec frames t).0 (top + 1) paced low high
        (omega arith))
