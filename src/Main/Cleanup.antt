-- ===== src/Main/Cleanup.antt =====
-- What main() of main.c has brought up at each of its calls, and releases again.
use realboy.Prelude.{Bool, true, false, if◌then◌else◌, List, [], ◌∷◌, Option, none, some, ◌≡◌, refl}
use realboy.Main.{
  Call, fopen, render_init, backends_init, server_init, monitor_init, iopoll_init, monitor_run,
  monitor_fini, server_fini, backends_fini, render_fini, fclose, Outcomes, main,
}

pub data Part : Type 0 where
  file renderer backends server monitor : Part

-- Each call on the parts that are up, the last one first. `none` is a call out of order: a release
-- of a part that is not the last one, or a run without all of them.
unfoldable pub performed : Outcomes → Call → List Part → Option (List Part)
performed o fopen up = some (if o.fopen_ok then file ∷ up else up)
performed o render_init up = some (if o.render_ok then renderer ∷ up else up)
performed o backends_init up = some (if o.backends_ok then backends ∷ up else up)
performed o (server_init wait_for_client) up = some (if o.server_ok then server ∷ up else up)
performed o monitor_init up = some (if o.monitor_ok then monitor ∷ up else up)
performed o iopoll_init up = some up
performed o monitor_run (monitor ∷ server ∷ backends ∷ renderer ∷ file ∷ []) =
    if o.iopoll_ok then some (monitor ∷ server ∷ backends ∷ renderer ∷ file ∷ []) else none
performed o monitor_fini (monitor ∷ up) = some up
performed o server_fini (server ∷ up) = some up
performed o backends_fini (backends ∷ up) = some up
performed o render_fini (renderer ∷ up) = some up
performed o fclose (file ∷ up) = some up
performed o _ _ = none

unfoldable pub performed_all : Outcomes → List Call → List Part → Option (List Part)
unfolding performed
performed_all o [] up = some up
performed_all o (call ∷ calls) up = elim (performed o call up) [
  | none ↦ none
  | some up' ↦ performed_all o calls up'
]

abbrev outcomes : Bool → Bool → Bool → Bool → Bool → Bool → Outcomes
outcomes f r b s m i = record {
  fopen_ok = f;
  render_ok = r;
  backends_ok = b;
  server_ok = s;
  monitor_ok = m;
  iopoll_ok = i;
}

with_file :
    (w f r b s m i : Bool)
    → performed_all (outcomes f r b s m i) (main false w true (outcomes f r b s m i)) [] ≡ some []
unfolding performed_all main
with_file w false r b s m i = refl
with_file w true false b s m i = refl
with_file w true true false s m i = refl
with_file w true true true false m i = refl
with_file w true true true true false i = refl
with_file w true true true true true false = refl
with_file w true true true true true true = refl

without_file :
    (w f r b s m i : Bool)
    → performed_all (outcomes f r b s m i) (main false w false (outcomes f r b s m i)) [] ≡ none
unfolding performed_all main
without_file w f false b s m i = refl
without_file w f true false s m i = refl
without_file w f true true false m i = refl
without_file w f true true true false i = refl
without_file w f true true true true false = refl
without_file w f true true true true true = refl

-- With the name of a file, and whichever of its calls fail, main() releases each part that it
-- brought up once, in reverse order, and runs the monitor only with all parts up. Without a name,
-- it releases or uses a file that it never opened.
pub performed_all-main :
    (wait_for_client has_file : Bool) (o : Outcomes)
    → performed_all o (main false wait_for_client has_file o) []
      ≡ (if has_file then some [] else none)
performed_all-main w true o =
    with_file w o.fopen_ok o.render_ok o.backends_ok o.server_ok o.monitor_ok o.iopoll_ok
performed_all-main w false o =
    without_file w o.fopen_ok o.render_ok o.backends_ok o.server_ok o.monitor_ok o.iopoll_ok
