-- ===== src/Rest/Session.antt =====
-- The session of app/zmux/terminal.py. Its `_process` is None from the constructor on, so the branches
-- with a running process are never reached.
pub mod Paths
use zabawheels.Prelude.Dict.{has_id}
use zabawheels.Prelude.Int.{ℤ, pos}
use zabawheels.Prelude.Json.{
  Json, null, boolean, number, string, Members, no_members, member, find_member,
}
use zabawheels.Prelude.{
  ℕ, Bool, true, false, ◌&&◌, ◌||◌, not, Option, none, some, List, [], ◌∷◌, ◌++◌, Text, codes,
  bytes_eq, is_empty, ◌==◌, if◌then◌else◌,
}
use zabawheels.Web.Handshake.{words_from}

-- `d[key] = value`
unfoldable pub set_member : Text → Json → Members → Members
set_member key value no_members = member key value no_members
set_member key value (member k j d) =
    let rest = set_member key value d in
    if bytes_eq k key then member k value d else member k j rest

-- `d.setdefault(key, value)`
unfoldable pub set_default : Text → Json → Members → Members
set_default key value d = elim (find_member key d) [ none ↦ set_member key value d | some j ↦ d ]

-- `d.get(key)`, and `d.get(key, default)`.
abbrev pub member_or : Text → Json → Members → Json
member_or key default d = elim (find_member key d) [ none ↦ default | some j ↦ j ]

-- What the session calls of `PythonShell` (app/zmux/python_shell.py). A result is a dictionary.
pub record ShellOps : Type 1 where
  pub Shell : Type 0
  pub Time : Type 0
  pub fresh : Shell
  pub cwd : Shell → Text
  pub execute : Bool → Text → Option Time → Shell → Shell × Members
  pub execute_command : Text → Option Time → Shell → Shell × Members

-- The fields of `TerminalSession`. `exit_code` is a value of a result, `null` for None.
pub record Session (S : Type 0) : Type 0 where
  pub directory : Text
  pub shell : S
  pub status : Text
  pub exit_code : Json

abbrev pub idle : Text
idle = codes "idle"

abbrev pub exited : Text
exited = codes "exited"

-- `int(exit_parts[1]) if len(exit_parts) > 1 else 0`, where a `ValueError` counts as 2.
abbrev pub exit_code_of : (Text → Option ℤ) → List Text → ℤ
exit_code_of int_of_text [] = pos 0
exit_code_of int_of_text (word ∷ rest) = elim (int_of_text word) [ none ↦ pos 2 | some code ↦ code ]

abbrev is_zero : ℤ → Bool
is_zero (pos n) = n == 0
is_zero z = false

module _ (ops : ShellOps) (int_of_text : Text → Option ℤ) where
  open ops use {Shell, Time}

  -- `__init__`
  abbrev pub new_session : Text → Session Shell
  new_session home = record { directory = home; shell = ops.fresh; status = idle; exit_code = null }

  -- What follows a run of the shell.
  unfoldable pub finish : Shell × Members → Session Shell → Session Shell × Members
  finish (shell, result) s = (
    record s {
      directory = ops.cwd shell;
      shell = shell;
      status = idle;
      exit_code = member_or (codes "exit_code") null result;
    },
    set_member (codes "status") (string idle) result,
  )

  abbrev leave : ℤ → Session Shell → Session Shell × Members
  leave code s = (
    record s { status = exited; exit_code = number code },
    member (codes "ok") (boolean (is_zero code)) (
        member (codes "stdout") (string (codes "Goodbye!\n")) (
          member (codes "stderr") (string []) (
            member (codes "exit_code") (number code)
              (member (codes "status") (string exited) no_members)))),
  )

  -- The words of a command decide whether it is `exit`.
  unfoldable pub execute_words :
      List Text → Text → Option Time → Session Shell → Session Shell × Members
  execute_words [] command timeout s = finish (ops.execute false command timeout s.shell) s
  execute_words (word ∷ rest) command timeout s =
      if bytes_eq word (codes "exit")
      then leave (exit_code_of int_of_text rest) s
      else finish (ops.execute false command timeout s.shell) s

  -- `execute`
  unfoldable pub execute : Text → Option Time → Session Shell → Session Shell × Members
  execute command timeout s = execute_words (words_from [] command) command timeout s

  -- `execute_python`
  unfoldable pub execute_python : Text → Option Time → Session Shell → Session Shell × Members
  execute_python source timeout s = finish (ops.execute true source timeout s.shell) s

  -- `execute_command`
  unfoldable pub execute_command : Text → Option Time → Session Shell → Session Shell × Members
  execute_command command timeout s = finish (ops.execute_command command timeout s.shell) s

-- `send_input`
abbrev pub send_input_result : Members
send_input_result =
    member (codes "ok") (boolean false)
      (member (codes "error") (string (codes "No process running")) no_members)

-- `stop`
abbrev pub stop_result : Members
stop_result =
    member (codes "ok") (boolean true)
      (member (codes "message") (string (codes "No process running")) no_members)

-- `get_prompt`, with `display_path`.
abbrev pub get_prompt : {S : Type 0} → (Text → Text) → Session S → Text
get_prompt display_path s = codes "zmux:" ++ display_path s.directory ++ codes "$ "

-- The loop of `_build_env` on the search path: what is empty or has been seen is left out.
unfoldable pub add_unseen : List Text → List Text → List Text
add_unseen parts [] = parts
add_unseen parts (p ∷ ps) =
    add_unseen (if not (is_empty p) && not (has_id p parts) then parts ++ p ∷ [] else parts) ps

-- `_SYSTEM_PATHS`
abbrev pub system_paths : List Text
system_paths = codes "/system/bin" ∷ codes "/system/xbin" ∷ codes "/vendor/bin" ∷ codes "/sbin" ∷ []

-- The entries of PATH that `_build_env` makes of those that are inherited.
unfoldable pub search_path : Text → List Text → List Text
search_path bin_dir inherited = add_unseen (bin_dir ∷ []) (system_paths ++ inherited)
