-- ===== src/Main.antt =====
-- main() of main.c: the parts that it brings up, and what it does when one of them fails.
pub mod Cleanup
use realboy.Prelude.{
  Bool, true, false, ◌&&◌, if◌then◌else◌, List, [], ◌∷◌, ◌++◌, Option, none, some, ◌≡◌, refl,
}

-- What main() calls, with `wait_for_client` for server_init().
pub data Call : Type 0 where
  fopen render_init backends_init monitor_init iopoll_init monitor_run : Call
  server_init : Bool → Call
  monitor_fini server_fini backends_fini render_fini fclose : Call

-- Which of the calls succeed. fopen() is not called without a file name.
pub record Outcomes : Type 0 where
  pub fopen_ok : Bool
  pub render_ok : Bool
  pub backends_ok : Bool
  pub server_ok : Bool
  pub monitor_ok : Bool
  pub iopoll_ok : Bool

-- The labels, each with all that stands behind it.
pub data Label : Type 0 where
  err_io err_monitor err_server err_backends err_render err_open : Label

abbrev pub behind : Label → List Call
behind err_io = monitor_fini ∷ server_fini ∷ backends_fini ∷ render_fini ∷ fclose ∷ []
behind err_monitor = server_fini ∷ backends_fini ∷ render_fini ∷ fclose ∷ []
behind err_server = backends_fini ∷ render_fini ∷ fclose ∷ []
behind err_backends = render_fini ∷ fclose ∷ []
behind err_render = fclose ∷ []
behind err_open = []

-- `if (ret == -1) goto label;`
abbrev pub or_goto : Bool → Label → List Call → List Call
or_goto ok label rest = if ok then rest else behind label

-- The calls behind the options, in order; monitor_run() ends by the signal that the user sends.
unfoldable pub bring_up : Bool → Outcomes → List Call
bring_up wait_for_client o =
    render_init
    ∷ or_goto o.render_ok err_render (
        backends_init
        ∷ or_goto o.backends_ok err_backends (
            server_init wait_for_client
            ∷ or_goto o.server_ok err_server (
                monitor_init
                ∷ or_goto o.monitor_ok err_monitor
                    (iopoll_init ∷ or_goto o.iopoll_ok err_io (monitor_run ∷ behind err_io)))))

-- `has_file` is `optind < argc`.
unfoldable pub main : Bool → Bool → Bool → Outcomes → List Call
unfolding bring_up
main no_arguments wait_for_client has_file o =
    if no_arguments
    then []
    else (if has_file
        then fopen ∷ or_goto o.fopen_ok err_open (bring_up wait_for_client o)
        else bring_up wait_for_client o)
