-- ===== src/Zpip/Install.antt =====
-- `install` (app/zmux/zpip.py): the dependencies, the wheel, and the transaction that commits it.
pub mod Transaction
pub mod Kept
pub mod Owned
pub mod Ends
use zabawheels.Prelude.Outcome.{Outcome, raised, returned, ◌>>=◌, ◌>>◌, require, or_raise}
use zabawheels.Prelude.Dict.{has_id, lookup, insert}
use zabawheels.Prelude.Json.{Json, string}
use zabawheels.Prelude.{
  ℕ, zero, suc, Bool, true, false, not, ◌&&◌, ◌||◌, Option, none, some, List, [], ◌∷◌, ◌++◌, map,
  Bytes, Text, codes, bytes_eq, length, get_or, is_empty, if◌then◌else◌,
}
use zabawheels.Zpip.Names.{canonicalize}
use zabawheels.Zpip.Wheel.{Response, Member, download, extract}
use zabawheels.Zpip.Modules.{sorted_names, discover_modules}
use zabawheels.Zpip.Catalog.{
  Requirement, Sources, get_or_raise, get_default, or_empty, str_of, resolve, manifest_requirements,
}
use zabawheels.Zpip.Disk.{Disk, empty_disk, Commit, commit_files, roll_back, remove_obsolete}
use zabawheels.Zpip.Store.{Package, Db, Store, uninstall_canonical}

-- All that the installer meets: the sources, downloads, archives, imports, and the file system's answers.
pub record World : Type 0 where
  pub sources : Sources
  pub fetch : Text → Option Response
  pub sha256 : Bytes → Text
  pub infolist : Bytes → Outcome (List Member)
  pub lines_of : Bytes → List Text
  pub is_identifier : Text → Bool
  pub imports : List (Text × Bytes) → Text → Outcome (Unit {0})
  pub staging : List Text
  pub base : List Text
  pub writable : Text → Bool
  pub removable : Text → Bool
  pub restorable : Text → Bool
  pub can_save : Bool

-- How a transaction ends: it goes through, it fails and is undone, or it fails and an exception leaves its
-- undoing.
pub data Ending : Type 0 where
  done : Ending
  undone : Ending
  stuck : Ending

-- What `install` answers. An error keeps its text where it is fixed, and leaves the changing parts out.
pub data Answer : Type 0 where
  failed : Text → Text → Bool → Answer
  installed : Text → Package → List Text → Answer

abbrev pub is_ok : Answer → Bool
is_ok (installed name found deps) = true
is_ok (failed name error rolled_back) = false

-- A wheel that is ready to be committed.
pub record Wheel : Type 0 where
  pub files : List (Text × Bytes)
  pub modules : List Text
  pub digest : Text
  pub size : ℕ

abbrev pub paths : List (Text × Bytes) → List Text
paths [] = []
paths ((path, content) ∷ files) = path ∷ paths files

-- The staging directory.
unfoldable pub staged : List (Text × Bytes) → Disk
staged [] q = none
staged ((path, content) ∷ files) q = if bytes_eq path q then some content else staged files q

-- `_satisfies`
abbrev pub satisfies : Option Package → Requirement → Bool
satisfies none r = false
satisfies (some found) r = r.takes found.version

-- `set(files) & set(owners)` is not empty: a package of another name has a file of the wheel.
unfoldable pub any_of : List Text → List Text → Bool
any_of files [] = false
any_of files (path ∷ owned) = has_id path files || any_of files owned

unfoldable pub has_collision : Text → List Text → Db → Bool
has_collision name files [] = false
has_collision name files ((owner, found) ∷ db) =
    (not (bytes_eq owner name) && any_of files found.files) || has_collision name files db

abbrev pub previous_files : Option Package → List Text
previous_files none = []
previous_files (some old) = old.files

abbrev pub was_explicit : Option Package → Bool
was_explicit none = false
was_explicit (some old) = old.explicit

abbrev pub error_text : Text
error_text = codes "File ownership conflict"

-- The dependencies that were installed, the store, and the error that ended the loop, if any.
pub record Resolved : Type 0 where
  pub installed_deps : List Text
  pub store : Store
  pub error : Option Text

module _ (rec : Text → Option Text → Store → Answer × Store) where
  -- A dependency that is not installed yet.
  unfoldable pub add_dependency : Text → Requirement → List Text → Store → Resolved
  add_dependency dep r deps s =
      let (answer, s') = rec dep r.exact s in
      if not (is_ok answer)
      then record { installed_deps = deps; store = s'; error = some (codes "Dependency failed") }
      else if not (satisfies (lookup dep s'.db) r)
      then record {
        installed_deps = deps ++ dep ∷ [];
        store = s';
        error = some (codes "Resolved version does not satisfy the requirement");
      }
      else record { installed_deps = deps ++ dep ∷ []; store = s'; error = none }

  -- A dependency: it is there, or in the way, or has to be installed.
  unfoldable pub meet_requirement : Requirement → Outcome Text → Db → List Text → Store → Resolved
  meet_requirement r (raised e) before deps s = record {
    installed_deps = deps;
    store = s;
    error = some e;
  }
  meet_requirement r (returned dep) before deps s =
      if satisfies (lookup dep before) r
      then record { installed_deps = deps; store = s; error = none }
      else elim (lookup dep before) [
        | some old ↦ record {
          installed_deps = deps;
          store = s;
          error = some (codes "Dependency conflict");
        }
        | none ↦ add_dependency dep r deps s
      ]

  -- The loop over the requirements; `before` is the database as it was ahead of it.
  unfoldable pub meet_requirements : List Requirement → Db → Resolved → Resolved
  meet_requirements [] before found = found
  meet_requirements (r ∷ rs) before found = elim found.error [
    | some e ↦ found
    | none ↦
        meet_requirements rs before
          (meet_requirement r (canonicalize r.name) before found.installed_deps found.store)
  ]

module _ (w : World) where
  -- From the download to the smoke test.
  unfoldable pub fetch_wheel : Text → Json → Outcome Wheel
  fetch_wheel name manifest = do
    artifact ← get_or_raise (codes "artifact") manifest
    url ← get_default (codes "url") (string []) (or_empty artifact)
    digest ← get_default (codes "sha256") (string []) (or_empty artifact)
    body ← download w.fetch w.sha256 (str_of w.sources url) (str_of w.sources digest)
    members ← w.infolist body
    files ← extract w.staging members
    let modules = discover_modules w.is_identifier w.lines_of files name
    w.imports files (get_or modules 0 [])
    returned
        (record { files = files; modules = modules; digest = w.sha256 body; size = length body })

  -- The record of the manifest's fields for a wheel.
  unfoldable pub package_of : Json → Text → Wheel → Bool → Outcome Package
  package_of manifest channel wheel explicit = do
    version ← get_default (codes "version") (string []) manifest
    runtime_id ← get_default (codes "runtime_id") (string []) manifest
    abi ← get_default (codes "abi") (string []) manifest
    found_channel ← get_default (codes "channel") (string channel) manifest
    returned (record {
      version = str_of w.sources version;
      runtime_id = str_of w.sources runtime_id;
      abi = str_of w.sources abi;
      channel = str_of w.sources found_channel;
      files = sorted_names (paths wheel.files);
      sha256 = wheel.digest;
      size = wheel.size;
      modules = wheel.modules;
      explicit = explicit;
    })

  -- The end of the transaction: what `except` makes of a commit. The database is as it was.
  unfoldable pub undo : Commit → Disk → Store → Ending × Store
  undo c disk s =
      let (disk', passed) = roll_back w.restorable c.saved c.committed disk in
      (if passed then undone else stuck, record s { disk = disk' })

  -- The commit, the removal of obsolete files and the saving of the database.
  unfoldable pub transact : Text → Package → List (Text × Bytes) → Store → Ending × Store
  transact name new files s =
      let (c, committed) =
        commit_files w.writable (staged files) (paths files)
          (record { disk = s.disk; saved = empty_disk; committed = [] }) in
      let (disk, removed) =
        remove_obsolete w.removable (paths files) (previous_files (lookup name s.db)) c.disk in
      if not committed
      then undo c c.disk s
      else if not removed
      then undo c disk s
      else if not w.can_save
      then undo c disk s
      else (done, record { disk = disk; db = insert name new s.db })

  -- `for dependency in reversed(new_dependencies): uninstall(dependency)`
  unfoldable pub uninstall_all : List Text → Store → Store
  uninstall_all [] s = s
  uninstall_all (dep ∷ deps) s = (uninstall_canonical w.base dep (uninstall_all deps s)).1

  -- `except Exception`, before anything is committed.
  unfoldable pub give_up : Text → Text → List Text → Store → Answer × Store
  give_up name error deps s = (failed name error true, uninstall_all deps s)

  -- The answer. Where undoing raises, the exception leaves `install` before the dependencies are
  -- uninstalled; like the other exceptions that leave it, it is an answer without `rolled_back`.
  abbrev pub conclude : Text → Package → List Text → Ending × Store → Answer × Store
  conclude name new deps (done, s) = (installed name new deps, s)
  conclude name new deps (stuck, s) = (failed name (codes "roll back failed") false, s)
  conclude name new deps (undone, s) = give_up name (codes "commit failed") deps s

  -- From the ownership check on.
  unfoldable pub commit_wheel :
      Text → Json → Text → Bool → List Text → Wheel → Store → Answer × Store
  commit_wheel name manifest channel by_name deps wheel s =
      if has_collision name (paths wheel.files) s.db
      then give_up name error_text deps s
      else elim (package_of manifest channel wheel (was_explicit (lookup name s.db) || by_name)) [
        | raised error ↦ give_up name error deps s
        | returned new ↦ conclude name new deps (transact name new wheel.files s)
      ]

  unfoldable pub install_wheel :
      Text → Json → Text → Bool → List Text → Outcome Wheel → Store → Answer × Store
  install_wheel name manifest channel by_name deps (raised error) s = give_up name error deps s
  install_wheel name manifest channel by_name deps (returned wheel) s =
      commit_wheel name manifest channel by_name deps wheel s

  unfoldable pub after_requirements : Text → Json → Text → Bool → Resolved → Answer × Store
  after_requirements name manifest channel by_name found = elim found.error [
    | some e ↦ give_up name e found.installed_deps found.store
    | none ↦
        install_wheel name manifest channel by_name found.installed_deps (fetch_wheel name manifest)
          found.store
  ]

  module _ (rec : Text → Option Text → Store → Answer × Store) where
    -- What follows once the manifest is there.
    unfoldable pub with_requirements :
        Text → Json → Text → Bool → Outcome (List Requirement) → Store → Answer × Store
    with_requirements name manifest channel by_name (raised e) s = give_up name e [] s
    with_requirements name manifest channel by_name (returned rs) s =
        after_requirements name manifest channel by_name
          (meet_requirements rec rs s.db (record { installed_deps = []; store = s; error = none }))

    unfoldable pub with_manifest : Text → Text → Bool → Outcome Json → Store → Answer × Store
    with_manifest name channel by_name (raised e) s = give_up name e [] s
    with_manifest name channel by_name (returned manifest) s =
        with_requirements name manifest channel by_name (manifest_requirements w.sources manifest) s

  unfoldable pub install_as :
      (Text → Option Text → Store → Answer × Store)
      → Text
      → Option Text
      → Text
      → List Text
      → Store
      → Answer × Store
  install_as rec name version channel stack s =
      if has_id name stack
      then (failed name (codes "Dependency cycle") true, s)
      else with_manifest rec name channel (is_empty stack) (resolve w.sources name version channel)
          s

  unfoldable pub install_canonical :
      (Text → Text → Option Text → Store → Answer × Store)
      → Outcome Text
      → Option Text
      → Text
      → List Text
      → Store
      → Answer × Store
  install_canonical rec (raised e) version channel stack s = (failed [] e false, s)
  install_canonical rec (returned name) version channel stack s =
      install_as (rec name) name version channel stack s

  -- `install`. Each call of itself has one name more on its stack.
  unfoldable pub install : ℕ → Text → Option Text → Text → List Text → Store → Answer × Store
  install zero name version channel stack s = (failed name (codes "RecursionError") true, s)
  install (suc fuel) name version channel stack s =
      install_canonical
        (λ caller dep exact u. install fuel dep exact channel (stack ++ caller ∷ []) u)
        (canonicalize name) version channel stack s
