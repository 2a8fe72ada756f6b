-- ===== src/Tests/MainRuns.antt =====
-- The theorems of main() and of the clock, where the server fails, and at three frames.
use realboy.Prelude.{ℕ, ◌≡◌, arith, true, false, List, [], ◌∷◌, some}
use realboy.Main.{Outcomes, main}
use realboy.Main.Cleanup.{performed_all, performed_all-main}
use realboy.Monitor.Throttle.{Throttle, throttle, monitor_throttle_fps}
use realboy.Monitor.Throttle.Pace.{slept, Paced, paced_end, paced_by, AllFair, slept-AllFair}

abbrev no_server : Outcomes
no_server = record {
  fopen_ok = true;
  render_ok = true;
  backends_ok = true;
  server_ok = false;
  monitor_ok = true;
  iopoll_ok = true;
}

performed_all-main_example : performed_all no_server (main false true true no_server) [] ≡ some []
performed_all-main_example = performed_all-main true true no_server

abbrev at_start : Throttle
at_start = record { frame_count_last = 0; last_sec = 0; sleep_factor = 60 }

-- The first frame, one in the same second, and one in the next.
abbrev frames : List (ℕ × ℕ)
frames = (7, 1) ∷ (7, 2) ∷ (8, 63) ∷ []

frames-Paced : Paced frames at_start
unfolding monitor_throttle_fps throttle
frames-Paced =
    paced_by _ _ _ _ (λ later changed. absurd cc)
      (paced_by _ _ _ _ (λ later changed. absurd cc)
        (paced_by _ _ _ _ (λ later changed. omega arith) (paced_end _)))

slept-AllFair_example : AllFair (slept frames at_start)
slept-AllFair_example =
    slept-AllFair frames at_start 60 frames-Paced (omega arith) (omega arith) (omega arith)
