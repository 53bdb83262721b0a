-- ===== src/Zpip/Dispatch/History.antt =====
-- What holds after any sequence of `zpip` commands (app/zmux/zpip.py).
use zabawheels.Prelude.{
  Option, none, some, List, [], ◌∷◌, Text, codes, bytes_eq, if-elim, Option-cases, inl, inr,
}
use zabawheels.Prelude.Outcome.{Outcome, raised, returned, Outcome-cases}
use zabawheels.Prelude.Json.{Json}
use zabawheels.Zpip.Disk.{Disk}
use zabawheels.Zpip.Names.{canonicalize}
use zabawheels.Zpip.Search.Query.{search}
use zabawheels.Zpip.Install.Kept.{uninstall_canonical-Keeps}
use zabawheels.Zpip.Install.Owned.{
  IsOwned, IsOwned-insert, IsOwned-delete, install-IsOwned, no_packages-IsOwned,
}
use zabawheels.Zpip.Dispatch.{
  Shell, Reply, Device, run_search, run_uninstall, run_install, run_bare, run_single, run_action,
  run_args, without_zpip, dispatch, dispatch_all,
}

module _ (sh : Shell) where
  abbrev Kept : Outcome Reply × Device → Type 0
  Kept (reply, d) = IsOwned d.store.db

  run_search-Kept : (query : Text) (d : Device) → IsOwned d.store.db → Kept (run_search sh query d)
  unfolding run_search
  run_search-Kept query d h =
      elim (Outcome-cases (search (record sh.searcher { cached = d.cached }) query d.store.db)) [
        | inl (e, wrong) ↦ rw (wrong, run_search) h
        | inr (answer, right) ↦ rw (right, run_search) h
      ]

  run_uninstall-Kept :
      (name : Outcome Text) (d : Device) → IsOwned d.store.db → Kept (run_uninstall sh name d)
  unfolding run_uninstall
  run_uninstall-Kept (raised e) d h = h
  run_uninstall-Kept (returned name) d h =
      uninstall_canonical-Keeps sh.world IsOwned IsOwned-insert IsOwned-delete name d.store h

  run_install-Kept :
      (name : Text) (version : Option Text) (d : Device)
      → IsOwned d.store.db
      → Kept (run_install sh name version d)
  unfolding run_install
  run_install-Kept name version d h =
      install-IsOwned sh.world sh.fuel name version (codes "stable") [] d.store h

  run_bare-Kept : (action : Text) (d : Device) → IsOwned d.store.db → Kept (run_bare sh action d)
  unfolding run_bare
  run_bare-Kept action d h =
      let K : Outcome Reply × Device → Type 0 = Kept in
      if-elim K (bytes_eq action (codes "list")) h
        (if-elim K (bytes_eq action (codes "doctor")) h h)

  run_single-Kept :
      (action value : Text) (d : Device) → IsOwned d.store.db → Kept (run_single sh action value d)
  unfolding run_single
  run_single-Kept action value d h =
      let K : Outcome Reply × Device → Type 0 = Kept in
      if-elim K (bytes_eq action (codes "search")) (run_search-Kept value d h) (
        if-elim K (bytes_eq action (codes "info")) h (
          if-elim K (bytes_eq action (codes "verify")) h (
            if-elim K (bytes_eq action (codes "uninstall"))
              (run_uninstall-Kept (canonicalize value) d h)
              (if-elim K (bytes_eq action (codes "install")) (run_install-Kept value none d h) h))))

  run_action-Kept :
      (action : Text) (values : List Text) (d : Device)
      → IsOwned d.store.db
      → Kept (run_action sh action values d)
  unfolding run_action
  run_action-Kept action [] d h = run_bare-Kept action d h
  run_action-Kept action (value ∷ []) d h = run_single-Kept action value d h
  run_action-Kept action (value ∷ version ∷ []) d h =
      let K : Outcome Reply × Device → Type 0 = Kept in
      if-elim K (bytes_eq action (codes "search")) (run_search-Kept _ d h) (
        if-elim K (bytes_eq action (codes "install")) (run_install-Kept value (some version) d h) h)
  run_action-Kept action (value ∷ version ∷ more ∷ values) d h =
      let K : Outcome Reply × Device → Type 0 = Kept in
      if-elim K (bytes_eq action (codes "search")) (run_search-Kept _ d h) h

  run_args-Kept : (args : List Text) (d : Device) → IsOwned d.store.db → Kept (run_args sh args d)
  unfolding run_args
  run_args-Kept [] d h = h
  run_args-Kept (action ∷ values) d h = run_action-Kept action values d h

  dispatch-Kept : (command : Text) (d : Device) → IsOwned d.store.db → Kept (dispatch sh command d)
  unfolding dispatch
  dispatch-Kept command d h = elim (Option-cases (sh.split command)) [
    | inl e ↦ rw (e, dispatch) h
    | inr (args, e) ↦ rw (e, dispatch) (run_args-Kept (without_zpip sh args) d h)
  ]

dispatch_all-Kept :
    (commands : List (Shell × Text)) (d : Device)
    → IsOwned d.store.db
    → IsOwned (dispatch_all commands d).store.db
unfolding dispatch_all
dispatch_all-Kept [] d h = h
dispatch_all-Kept ((sh, command) ∷ commands) d h =
    dispatch_all-Kept commands (dispatch sh command d).1 (dispatch-Kept sh command d h)

-- From an empty database on, whatever the files on disk, no sequence of command lines, each with outcomes
-- of the network and the file system of its own, ever leaves a file in the records of two packages, or two records of one name.
pub dispatch_all-IsOwned :
    (commands : List (Shell × Text)) (disk : Disk) (cached : Option Json)
    → IsOwned
        (dispatch_all commands
          (record { store = record { disk = disk; db = [] }; cached = cached })).store.db
dispatch_all-IsOwned commands disk cached = dispatch_all-Kept commands _ no_packages-IsOwned
