-- ===== src/Zpip/Dispatch.antt =====
-- The commands of `zpip` (app/zmux/zpip.py): `verify`, `info`, `doctor` and `dispatch`.
pub mod History
pub mod Tests
use zabawheels.Prelude.Outcome.{Outcome, raised, returned, ◌>>=◌}
use zabawheels.Prelude.Dict.{lookup, keys, has_id}
use zabawheels.Prelude.Json.{Json}
use zabawheels.Prelude.{
  ℕ, Bool, true, false, not, ◌&&◌, Option, none, some, List, [], ◌∷◌, ◌++◌, Text, codes, bytes_eq,
  if◌then◌else◌, is_empty,
}
use zabawheels.Zpip.Names.{canonicalize, import_name}
use zabawheels.Zpip.Catalog.{resolve}
use zabawheels.Zpip.Store.{Package, Db, Store, missing_files, uninstall_canonical, uninstall_as}
use zabawheels.Zpip.Install.{World, Answer, install}
use zabawheels.Zpip.Search.{Searcher}
use zabawheels.Zpip.Search.Query.{Found, search}

-- What a command line meets: the installer's world, the searcher's, `shlex.split` (nothing where it raises),
-- whether a module can be imported, and the depth to which `install` may recurse.
pub record Shell : Type 0 where
  pub world : World
  pub searcher : Searcher
  pub split : Text → Option (List Text)
  pub can_import : Text → Bool
  pub fuel : ℕ

pub record Verified : Type 0 where
  pub missing : List Text
  pub import_ok : Bool

abbrev pub is_verified : Verified → Bool
is_verified v = is_empty v.missing && v.import_ok

-- What `dispatch` answers.
pub data Reply : Type 0 where
  refused : Text → Reply
  listed : Db → Reply
  checked : List (Text × Option Verified) → Reply
  searched : Found → Reply
  described : Text → Option Package → Option Json → Reply
  verified : Text → Option Verified → Reply
  removed : Text → Bool × ℕ → Reply
  answered : Answer → Reply

-- The packages and the cache file of the catalog.
pub record Device : Type 0 where
  pub store : Store
  pub cached : Option Json

module _ (sh : Shell) where
  abbrev pub first_or : Text → List Text → Text
  first_or other [] = other
  first_or other (x ∷ xs) = x

  -- `verify`, of a name in its normal form.
  unfoldable pub verify_found : Text → Option Package → Store → Option Verified
  verify_found name none s = none
  verify_found name (some found) s = some (record {
    missing = missing_files found.files s.disk;
    import_ok = sh.can_import (first_or (import_name name) found.modules);
  })

  unfoldable pub verify : Text → Store → Outcome (Text × Option Verified)
  verify name s = canonicalize name >>= λ n. returned (n, verify_found n (lookup n s.db) s)

  -- `{name: verify(name) for name in _load_db()}`
  unfoldable pub check_each : List Text → Store → Outcome (List (Text × Option Verified))
  check_each [] s = returned []
  check_each (name ∷ names) s = do
    check ← verify name s
    rest ← check_each names s
    returned ((name, check.1) ∷ rest)

  abbrev pub if_returned : Outcome Json → Option Json
  if_returned (raised e) = none
  if_returned (returned j) = some j

  -- `info`
  unfoldable pub info : Text → Store → Outcome Reply
  info name s = canonicalize name >>= λ n.
      returned (
        described n (lookup n s.db)
          (if_returned (resolve sh.world.sources n none (codes "stable"))))

  -- What `except (ValueError, OSError)` makes of it.
  abbrev pub or_refused : Outcome Reply → Reply
  or_refused (raised e) = refused e
  or_refused (returned r) = r

  abbrev pub joined : List Text → Text
  joined [] = []
  joined (x ∷ []) = x
  joined (x ∷ y ∷ xs) = x ++ codes " " ++ joined (y ∷ xs)

  abbrev pub put_store : Reply × Store → Device → Outcome Reply × Device
  put_store (r, s) d = (returned r, record d { store = s })

  unfoldable pub run_search : Text → Device → Outcome Reply × Device
  run_search query d = elim (search (record sh.searcher { cached = d.cached }) query d.store.db) [
    | raised e ↦ (raised e, d)
    | returned (answer, file) ↦ (returned (searched answer), record d { cached = file })
  ]

  unfoldable pub run_uninstall : Outcome Text → Device → Outcome Reply × Device
  run_uninstall (raised e) d = (returned (refused e), d)
  run_uninstall (returned name) d =
      let (answer, s) = uninstall_canonical sh.world.base name d.store in
      put_store (removed name answer, s) d

  unfoldable pub run_install : Text → Option Text → Device → Outcome Reply × Device
  run_install name version d =
      let (answer, s) = install sh.world sh.fuel name version (codes "stable") [] d.store in
      put_store (answered answer, s) d

  abbrev pub refuse : Text → Device → Outcome Reply × Device
  refuse error d = (returned (refused error), d)

  abbrev pub invalid : Text → Device → Outcome Reply × Device
  invalid action d = refuse (codes "invalid arguments for zpip " ++ action) d

  -- The commands of no value, of one, and of more.
  unfoldable pub run_bare : Text → Device → Outcome Reply × Device
  run_bare action d =
      if bytes_eq action (codes "list")
      then (returned (listed d.store.db), d)
      else if bytes_eq action (codes "doctor")
      then (
        returned (
            or_refused
              (check_each (keys d.store.db) d.store >>= λ checks. returned (checked checks))),
        d,
      )
      else invalid action d

  unfoldable pub run_single : Text → Text → Device → Outcome Reply × Device
  run_single action value d =
      if bytes_eq action (codes "search")
      then run_search value d
      else if bytes_eq action (codes "info")
      then (returned (or_refused (info value d.store)), d)
      else if bytes_eq action (codes "verify")
      then (returned (or_refused (verify value d.store >>= λ v. returned (verified v.0 v.1))), d)
      else if bytes_eq action (codes "uninstall")
      then run_uninstall (canonicalize value) d
      else if bytes_eq action (codes "install")
      then run_install value none d
      else invalid action d

  unfoldable pub run_action : Text → List Text → Device → Outcome Reply × Device
  run_action action [] d = run_bare action d
  run_action action (value ∷ []) d = run_single action value d
  run_action action (value ∷ version ∷ []) d =
      if bytes_eq action (codes "search")
      then run_search (joined (value ∷ version ∷ [])) d
      else if bytes_eq action (codes "install")
      then run_install value (some version) d
      else invalid action d
  run_action action values d =
      if bytes_eq action (codes "search") then run_search (joined values) d else invalid action d

  unfoldable pub run_args : List Text → Device → Outcome Reply × Device
  run_args [] d = refuse (codes "usage: zpip search|info|install|list|verify|uninstall|doctor") d
  run_args (action ∷ values) d = run_action action values d

  -- `args.pop(0)` of the command's own name.
  abbrev pub without_zpip : List Text → List Text
  without_zpip [] = []
  without_zpip (x ∷ xs) = if bytes_eq x (codes "zpip") then xs else x ∷ xs

  -- `dispatch`: the reply, or an exception that it does not catch.
  unfoldable pub dispatch : Text → Device → Outcome Reply × Device
  dispatch command d = elim (sh.split command) [
    | none ↦ refuse (codes "No closing quotation") d
    | some args ↦ run_args (without_zpip args) d
  ]

-- A sequence of command lines, each with what the network, the file system and the interpreter answer
-- while it runs.
unfoldable pub dispatch_all : List (Shell × Text) → Device → Device
dispatch_all [] d = d
dispatch_all ((sh, command) ∷ commands) d = dispatch_all commands (dispatch sh command d).1
