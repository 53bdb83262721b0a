-- ===== src/Zpip/Store.antt =====
-- What is installed: `packages.json` and the files, and `uninstall` (app/zmux/zpip.py).
pub mod Removed
use zabawheels.Prelude.Outcome.{Outcome, raised, returned}
use zabawheels.Prelude.Dict.{has_id, lookup, insert, delete}
use zabawheels.Prelude.{
  ℕ, Bool, true, false, not, ◌&&◌, ◌||◌, Option, none, some, List, [], ◌∷◌, Text, codes, bytes_eq,
  if◌then◌else◌,
}
use zabawheels.Zpip.Names.{canonicalize}
use zabawheels.Zpip.Wheel.{is_inside, destination}
use zabawheels.Zpip.Disk.{Disk, remove_files}

-- A record of `packages.json`.
pub record Package : Type 0 where
  pub version : Text
  pub runtime_id : Text
  pub abi : Text
  pub channel : Text
  pub files : List Text
  pub sha256 : Text
  pub size : ℕ
  pub modules : List Text
  pub explicit : Bool

abbrev pub Db : Type 0
Db = List (Text × Package)

pub record Store : Type 0 where
  pub disk : Disk
  pub db : Db

-- A path of USER_PACKAGES_DIR, resolved, stands below it; `base` has the directory's parts.
abbrev pub is_below : List Text → Text → Bool
is_below base path = is_inside base (destination base path)

-- `uninstall`: whether the package was there, and the count of files removed.
unfoldable pub uninstall_found : List Text → Text → Option Package → Store → (Bool × ℕ) × Store
uninstall_found base name none s = ((false, 0), s)
uninstall_found base name (some found) s =
    let (disk, removed) = remove_files (is_below base) found.files 0 s.disk in
    ((true, removed), record { disk = disk; db = delete name s.db })

unfoldable pub uninstall_canonical : List Text → Text → Store → (Bool × ℕ) × Store
uninstall_canonical base name s = uninstall_found base name (lookup name s.db) s

unfoldable pub uninstall_as : List Text → Outcome Text → Store → Outcome (Bool × ℕ) × Store
uninstall_as base (raised e) s = (raised e, s)
uninstall_as base (returned name) s =
    let (answer, s') = uninstall_canonical base name s in (returned answer, s')

-- `uninstall`
unfoldable pub uninstall : List Text → Text → Store → Outcome (Bool × ℕ) × Store
uninstall base name s = uninstall_as base (canonicalize name) s

-- The files of a record that are not on disk: the first half of `verify`.
unfoldable pub missing_files : List Text → Disk → List Text
missing_files [] disk = []
missing_files (path ∷ files) disk =
    let rest = missing_files files disk in
    elim (disk path) [ none ↦ path ∷ rest | some content ↦ rest ]
