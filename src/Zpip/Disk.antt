-- ===== src/Zpip/Disk.antt =====
-- The files under USER_PACKAGES_DIR, and what `install` and `uninstall` of app/zmux/zpip.py do to
-- them: the commit of a wheel's files, its undoing, and the removal of files.
pub mod Rounds
pub mod Rollback
pub mod Committed
use zabawheels.Prelude.{
  ℕ, suc, Bool, true, false, not, ◌&&◌, Option, none, some, List, [], ◌∷◌, ◌++◌, Bytes, Text,
  bytes_eq, if◌then◌else◌,
}
use zabawheels.Prelude.Dict.{has_id}

-- What a relative path holds: a file's bytes, or nothing.
abbrev pub Disk : Type 0
Disk = Text → Option Bytes

abbrev pub empty_disk : Disk
empty_disk path = none

unfoldable pub put_file : Text → Option Bytes → Disk → Disk
put_file path content disk other = if bytes_eq path other then content else disk other

-- The loop's state: the files, the copies in the backup directory, and `committed`.
pub record Commit : Type 0 where
  pub disk : Disk
  pub saved : Disk
  pub committed : List Text

-- A file that is to be replaced is copied to the backup; where there is none, nothing is copied.
unfoldable pub back_up : Text → Option Bytes → Disk → Disk
back_up path none saved = saved
back_up path (some old) saved = put_file path (some old) saved

-- The body of the commit loop, when nothing raises: the old file is copied to the backup, and the
-- staged one takes its place.
unfoldable pub commit_file : Disk → Text → Commit → Commit
commit_file staged path c = record {
  disk = put_file path (staged path) c.disk;
  saved = back_up path (c.disk path) c.saved;
  committed = c.committed ++ path ∷ [];
}

-- The commit loop. `writable` says for which path the file system lets the copy and the move happen; the
-- first path where it does not ends the loop, and leaves that path as it was.
unfoldable pub commit_files : (Text → Bool) → Disk → List Text → Commit → Commit × Bool
commit_files writable staged [] c = (c, true)
commit_files writable staged (path ∷ paths) c =
    let rest = commit_files writable staged paths (commit_file staged path c) in
    if writable path then rest else (c, false)

-- The restoring of one path: the saved copy, or no file.
unfoldable pub restore_file : Disk → Text → Disk → Disk
restore_file saved path disk = put_file path (saved path) disk

-- `for relative in reversed(committed)`, with whether it went through. `restorable` says for which path
-- the move of the copy, or the removal of the file, succeeds; the exception of another ends the loop.
unfoldable pub roll_back : (Text → Bool) → Disk → List Text → Disk → Disk × Bool
roll_back restorable saved [] disk = (disk, true)
roll_back restorable saved (path ∷ paths) disk =
    let (later, passed) = roll_back restorable saved paths disk in
    if passed && restorable path then (restore_file saved path later, true) else (later, false)

-- `for obsolete in set(previous) - set(files)`, in the order of the old record; `removable` says where
-- `unlink` succeeds.
unfoldable pub remove_obsolete : (Text → Bool) → List Text → List Text → Disk → Disk × Bool
remove_obsolete removable files [] disk = (disk, true)
remove_obsolete removable files (path ∷ previous) disk =
    let kept = remove_obsolete removable files previous disk in
    let removed = remove_obsolete removable files previous (put_file path none disk) in
    if has_id path files then kept else elim (disk path) [
      | none ↦ kept
      | some content ↦ if removable path then removed else (disk, false)
    ]

-- The removal loop of `uninstall`, with the count of files removed. `within` says that a path, resolved,
-- stands below USER_PACKAGES_DIR.
unfoldable pub remove_files : (Text → Bool) → List Text → ℕ → Disk → Disk × ℕ
remove_files within [] removed disk = (disk, removed)
remove_files within (path ∷ paths) removed disk = elim (disk path) [
  | none ↦ remove_files within paths removed disk
  | some content ↦
      let passed = remove_files within paths removed disk in
      let gone = remove_files within paths (suc removed) (put_file path none disk) in
      if within path then gone else passed
]
