-- ===== src/Alpine/Guest.antt =====
-- The command line of the guest's shell: `guest_cwd`, `_storage_bind_paths`, `_bind_flags`,
-- `build_proot_argv` and `build_interactive_argv` of app/zmux/linuxenv.py. That a bind's mount point is
-- made in the root has no counterpart, since directories have none.
pub mod Argv
pub mod Shell
use mathlib.Core.Option
use zabawheels.Prelude.Dict.{has_id}
use zabawheels.Prelude.{
  ℕ, zero, suc, Bool, true, false, ◌&&◌, ◌||◌, not, Option, none, some, List, [], ◌∷◌, ◌++◌, map,
  Text, codes, bytes_eq, is_empty, if◌then◌else◌,
}

-- `machine in names`, for `alpine_arch`.
abbrev one_of_two : Text → Text → Text → Bool
one_of_two machine a b = bytes_eq machine a || bytes_eq machine b

-- `alpine_arch`, with the machine's name in lower case.
unfoldable pub alpine_arch : Bool → Text → Text
alpine_arch true machine =
    if one_of_two machine (codes "aarch64") (codes "arm64") || bytes_eq machine (codes "arm64-v8a")
    then codes "aarch64"
    else if one_of_two machine (codes "armv7l") (codes "armv8l")
        || one_of_two machine (codes "armeabi-v7a") (codes "arm")
    then codes "armv7"
    else if one_of_two machine (codes "x86_64") (codes "amd64")
    then codes "x86_64"
    else machine
alpine_arch false machine =
    if one_of_two machine (codes "x86_64") (codes "amd64")
    then codes "x86_64"
    else if one_of_two machine (codes "aarch64") (codes "arm64")
    then codes "aarch64"
    else if one_of_two machine (codes "armv7l") (codes "armv8l")
    then codes "armv7"
    else machine

-- `path.relative_to(home)`, on the components of the two; `none` is its `ValueError`.
unfoldable pub relative_to : List Text → List Text → Option (List Text)
relative_to [] path = some path
relative_to (h ∷ home) [] = none
relative_to (h ∷ home) (p ∷ path) =
    let rest = relative_to home path in if bytes_eq h p then rest else none

-- `"/" + "/".join(…)`
abbrev pub slashed : List Text → Text
slashed [] = []
slashed (p ∷ ps) = codes "/" ++ (p ++ slashed ps)

-- `GUEST_HOME`
abbrev pub guest_home : Text
guest_home = codes "/root"

abbrev pub guest_path : Option (List Text) → Text
guest_path none = codes "/"
guest_path (some ps) = guest_home ++ slashed ps

-- `guest_cwd`, on the components of resolved paths.
unfoldable pub guest_cwd : List Text → List Text → Text
guest_cwd home cwd = guest_path (relative_to home cwd)

-- The loop of `_storage_bind_paths`.
unfoldable pub storage_paths : (Text → Bool) → List Text → List Text → List Text
storage_paths is_dir paths [] = paths
storage_paths is_dir paths (c ∷ candidates) =
    storage_paths is_dir
      (if not (is_empty c) && (is_dir c && not (has_id c paths)) then paths ++ c ∷ [] else paths)
      candidates

-- What the command line depends on: the directories of the device, and the values of three variables.
pub record Device : Type 0 where
  pub proot : Option Text
  pub rootfs : Text
  pub home_dir : Text
  pub home_parts : List Text
  pub app_path : Text
  pub external_storage : Text
  pub android_storage : Text
  pub is_dir : Text → Bool
  pub has_resolv : Bool

-- `_storage_bind_paths`
unfoldable pub storage_bind_paths : Device → List Text
storage_bind_paths d = storage_paths d.is_dir [] (
    d.app_path
    ∷ d.external_storage
    ∷ d.android_storage
    ∷ codes "/sdcard"
    ∷ codes "/storage/emulated/0"
    ∷ [])

-- A `-b` flag for each bind.
abbrev pub bind_args : List Text → List Text
bind_args [] = []
bind_args (b ∷ binds) = codes "-b" ∷ b ∷ bind_args binds

abbrev pub onto_itself : Text → Text
onto_itself path = path ++ codes ":" ++ path

-- `_bind_flags`
unfoldable pub bind_flags : Device → List Text
bind_flags d =
    (codes "-b" ∷ codes "/dev" ∷ codes "-b" ∷ codes "/proc" ∷ codes "-b" ∷ codes "/sys" ∷ [])
    ++ (codes "-b" ∷ (d.home_dir ++ codes ":/root") ∷ [])
    ++ bind_args (map onto_itself (storage_bind_paths d))
    ++ (if d.has_resolv then codes "-b" ∷ codes "/etc/resolv.conf:/etc/resolv.conf" ∷ [] else [])

-- `build_proot_argv`, with the components of the working directory; `none` is its `RuntimeError`.
unfoldable pub build_proot_argv : Device → List Text → List Text → List Text → Option (List Text)
build_proot_argv d guest_argv host_cwd extra_binds =
    Option.map
      (λ proot.
        (proot ∷ codes "-0" ∷ codes "-r" ∷ d.rootfs ∷ [])
        ++ bind_flags d
        ++ bind_args extra_binds
        ++ (codes "-w" ∷ guest_cwd d.home_parts host_cwd ∷ [])
        ++ guest_argv)
      d.proot

-- `argv.insert(i, item)`
unfoldable pub insert_at : ℕ → Text → List Text → List Text
insert_at zero item argv = item ∷ argv
insert_at (suc i) item [] = item ∷ []
insert_at (suc i) item (a ∷ argv) = a ∷ insert_at i item argv

-- `build_interactive_argv`
unfoldable pub build_interactive_argv : Device → List Text → Option (List Text)
build_interactive_argv d host_cwd =
    Option.map
      (λ argv.
        insert_at 3 (codes "--sysvipc")
          (insert_at 2 (codes "--link2symlink") (insert_at 1 (codes "--kill-on-exit") argv)))
      (build_proot_argv d (codes "/bin/sh" ∷ codes "-l" ∷ []) host_cwd [])
