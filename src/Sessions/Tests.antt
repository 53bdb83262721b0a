-- ===== src/Sessions/Tests.antt =====
-- The manager over real terminals, at a device with Alpine installed, and the theorems at that input.
use zabawheels.Prelude.Int.{pos}
use zabawheels.Prelude.{bytes_eq, ◌≡◌, refl, true, false, none, some, List, [], ◌∷◌, codes}
use zabawheels.Prelude.Decimal.{str}
use zabawheels.Pty.Terminal.{Terminal}
use zabawheels.Pty.Session.{Host}
use zabawheels.Sessions.{
  SessionOps, Manager, new_manager, is_active, enter_tables, add_session, put_session, emit_for,
  create, close, write_input, resize, get_manager,
}
use zabawheels.Prelude.Dict.{has_id, insert, lookup}
use zabawheels.Sessions.Valid.{IsValid}
use zabawheels.Sessions.Closing.{IsOpen, close-IsValid}
use zabawheels.Sessions.Isolation.{background_untouched}
use zabawheels.Sessions.History.{
  Call, new, switch_to, close_tab, keys_typed, perform, perform_all, new_manager-IsValid,
  perform_all-IsValid, manager-IsValid,
}
use zabawheels.Sessions.Tabs.{first_bar, follow, follow_all, drop_tab, drop_here, seek, onto}
use zabawheels.Sessions.Tabs.Shown.{Shows}
use zabawheels.Sessions.Tabs.Refinement.{manager-refines_strip}
use zabawheels.Sessions.Terminals.{terminal_ops}

abbrev phone : Host
phone = record {
  installed = true;
  has_proot = true;
  argv_error = none;
  spawn_error = none;
  has_running_processes = false;
  python_version = codes "3.14.2";
  setup_gate_enabled = true;
  rc_output = [];
}

abbrev ops : SessionOps
ops = terminal_ops phone (λ bytes. bytes) (codes "~")

abbrev two_calls : List Call
two_calls = new true ∷ new true ∷ []

two_tabs : Manager Terminal
two_tabs = perform_all ops two_calls new_manager

two_tabs-IsValid : IsValid two_tabs
unfolding two_tabs
two_tabs-IsValid = perform_all-IsValid ops two_calls new_manager (new_manager-IsValid ops)

two_tabs_order : two_tabs.order ≡ codes "1" ∷ codes "2" ∷ []
unfolding two_tabs perform_all perform create add_session enter_tables emit_for put_session
    is_active str insert bytes_eq
two_tabs_order = refl

manager-IsValid_example :
    (m : Manager Terminal) × (get_manager ops none ≡ some m)
    × IsValid
        (perform_all ops (new true ∷ keys_typed (codes "ls\r") ∷ close_tab (codes "1") ∷ []) m)
manager-IsValid_example =
    manager-IsValid ops (new true ∷ keys_typed (codes "ls\r") ∷ close_tab (codes "1") ∷ [])

close-IsValid_example :
    (m' : Manager Terminal) × (close ops (codes "2") two_tabs ≡ some (m', true))
    × IsValid m'
    × IsOpen ops m'
close-IsValid_example =
    close-IsValid ops (codes "2") two_tabs two_tabs-IsValid
      (rw two_tabs_order (unfold has_id bytes_eq in refl))

background_untouched_example :
    (lookup (codes "1") (write_input ops (codes "ls\r") two_tabs).sessions
      ≡ lookup (codes "1") two_tabs.sessions)
    × (lookup (codes "1") (resize ops (pos 100) (pos 30) two_tabs).sessions
        ≡ lookup (codes "1") two_tabs.sessions)
unfolding two_tabs perform_all perform create add_session enter_tables emit_for put_session
    is_active str insert bytes_eq
background_untouched_example =
    background_untouched ops (codes "ls\r") (pos 100) (pos 30) (codes "1") two_tabs refl

abbrev tab_calls : List Call
tab_calls = new true ∷ new false ∷ new true ∷ switch_to (codes "2") ∷ close_tab (codes "2") ∷ []

-- The hand goes from the second tab to the third.
tab_calls_strip :
    (follow_all tab_calls first_bar).strip
    ≡ record { left = codes "1" ∷ []; here = codes "3"; right = codes "4" ∷ [] }
unfolding follow_all follow drop_tab drop_here seek onto str bytes_eq
tab_calls_strip = refl

manager-refines_strip_example :
    (m : Manager Terminal) × (get_manager ops none ≡ some m)
    × Shows (perform_all ops tab_calls m) (follow_all tab_calls first_bar)
manager-refines_strip_example = manager-refines_strip ops tab_calls
