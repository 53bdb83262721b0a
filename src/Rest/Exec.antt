-- ===== src/Rest/Exec.antt =====
-- `/api/exec` of app/zmux/server.py.
use zabawheels.Prelude.Int.{ℤ, pos}
use zabawheels.Prelude.Json.{Json, null, boolean, number, string, Members, no_members, member}
use zabawheels.Prelude.{
  Bool, true, false, Option, none, some, [], ◌++◌, Text, codes, bytes_eq, starts_with, strip, ◌==◌,
  if◌then◌else◌,
}
use zabawheels.Rest.Session.{
  ShellOps, Session, new_session, execute, execute_python, execute_command, get_prompt, set_member,
  member_or,
}
use zabawheels.Rest.Api.{
  Reply, reply, failed, seconds, no_number, too_large, Backend, App, message_of, Payload, parsed,
  refused, Language, spoken, unspoken, get_exec_language, legacy_exec_result,
}

-- The three ways to run a command in the session.
pub data Run : Type 0 where
  automatic : Run
  python_source : Run
  plain_command : Run

module _ (ops : ShellOps) (backend : Backend ops) where
  open ops use {Shell, Time}
  open backend use {Packages}

  -- `get_session`
  unfoldable pub get_session : App Shell Packages → Session Shell
  get_session a = elim a.session [
    | none ↦ new_session ops backend.int_of_text backend.home_dir
    | some s ↦ s
  ]

  unfoldable pub run : Run → Text → Option Time → Session Shell → Session Shell × Members
  run automatic command timeout s = execute ops backend.int_of_text command timeout s
  run python_source command timeout s = execute_python ops backend.int_of_text command timeout s
  run plain_command command timeout s = execute_command ops backend.int_of_text command timeout s

  -- A run in the session, and its result with the prompt.
  unfoldable pub run_in_session :
      Run
      → (Members → Members)
      → Text
      → Option Time
      → App Shell Packages
      → Reply × App Shell Packages
  run_in_session way annotate command timeout a =
      let (s, result) = run way command timeout (get_session a) in
      (
        reply 200 (
            annotate
              (set_member (codes "prompt") (string (get_prompt backend.display_path s)) result)),
        record a { session = some s },
      )

  abbrev is_success : ℤ → Bool
  is_success (pos n) = n == 0
  is_success z = false

  -- The answer to a `zpip` command, which leaves the session alone.
  unfoldable pub run_zpip :
      (Members → Members) → Text → App Shell Packages → Reply × App Shell Packages
  run_zpip annotate command a =
      let (packages, result) = backend.dispatch command a.packages in
      let (output, exit_code) = backend.format_output command result in
      (
        reply 200 (
            annotate (
              member (codes "ok") (boolean (is_success exit_code)) (
                member (codes "stdout") (string (output ++ codes "\n")) (
                  member (codes "stderr") (string []) (
                    member (codes "exit_code") (number exit_code) (
                      member (codes "status") (string (codes "idle")) (
                        member (codes "legacy_command")
                          (member_or (codes "legacy") (boolean true) result)
                          (member (codes "legacy_status")
                            (member_or (codes "legacy_status") (string (codes "compatibility-only"))
                              result)
                            (member (codes "legacy_notice")
                              (member_or (codes "legacy_notice") (string []) result)
                              (member (codes "legacy_manager")
                                (member_or (codes "manager") (string (codes "zpip")) result)
                                (member (codes "prompt") (string (codes "zmux:~$ "))
                                  no_members))))))))))),
        record a { packages = packages },
      )

  -- The answer to `zmux-info`.
  unfoldable pub info_result : Members
  info_result = member (codes "ok") (boolean true) (
      member (codes "stdout") (string (backend.fingerprint ++ codes "\n")) (
        member (codes "stderr") (string []) (
          member (codes "exit_code") (number (pos 0)) (
            member (codes "status") (string (codes "idle"))
              (member (codes "prompt") (string (codes "zmux:~$ ")) no_members)))))

  -- The command by its language.
  unfoldable pub run_language :
      Text → Bool → Text → Option Time → App Shell Packages → Reply × App Shell Packages
  run_language language explicit command timeout a =
      let annotate = legacy_exec_result language explicit in
      if bytes_eq language (codes "python")
      then run_in_session python_source annotate command timeout a
      else if bytes_eq language (codes "command")
      then run_in_session plain_command annotate command timeout a
      else if starts_with (codes "zpip") (strip command)
      then run_zpip annotate command a
      else if bytes_eq (strip command) (codes "zmux-info")
      then (reply 200 (annotate info_result), a)
      else run_in_session automatic annotate command timeout a

  -- The timeout that a request asks for.
  unfoldable pub with_timeout :
      Json
      → (Option Time → Reply × App Shell Packages)
      → App Shell Packages
      → Reply × App Shell Packages
  with_timeout null next a = next none
  with_timeout j next a = elim (backend.float_of j) [
    | seconds t ↦ next (some t)
    | no_number ↦ (reply 400 (message_of (codes "timeout must be a number")), a)
    | too_large ↦ (failed, a)
  ]

  unfoldable pub exec_spoken :
      Language → Text → Members → App Shell Packages → Reply × App Shell Packages
  exec_spoken (unspoken r) command payload a = (r, a)
  exec_spoken (spoken language explicit) command payload a =
      with_timeout (member_or (codes "timeout") null payload)
        (λ timeout. run_language language explicit command timeout a) a

  unfoldable pub exec_command : Json → Members → App Shell Packages → Reply × App Shell Packages
  exec_command (string command) payload a =
      exec_spoken (get_exec_language backend.to_lower payload) command payload a
  exec_command j payload a = (reply 400 (message_of (codes "Field 'command' must be a string")), a)

  unfoldable pub exec_payload : Payload → App Shell Packages → Reply × App Shell Packages
  exec_payload (refused r) a = (r, a)
  exec_payload (parsed payload) a =
      exec_command (member_or (codes "command") (string []) payload) payload a
