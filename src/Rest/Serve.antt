-- ===== src/Rest/Serve.antt =====
-- The routes of app/zmux/server.py, and `require_auth`.
pub mod Authority
use zabawheels.Prelude.Json.{Json, boolean, string, Members, no_members, member}
use zabawheels.Prelude.{
  ℕ, Bytes, Bool, true, false, Option, none, some, List, [], ◌∷◌, Text, codes, if◌then◌else◌,
}
use zabawheels.Rest.Token.{verify_token}
use zabawheels.Rest.Session.{
  ShellOps, Session, send_input_result, stop_result, get_prompt, set_member, member_or,
}
use zabawheels.Rest.Api.{
  Route, static, index, health, exec, input, stop, status, prompt, Request, Reply, reply, failed,
  page, content_of, not_found, Backend, App, message_of, Payload, parsed, refused, get_json_payload,
  legacy_rest_result, legacy_rest_deprecation,
}
use zabawheels.Rest.Exec.{get_session, exec_payload}

-- The answer of `health_check`.
abbrev pub health_result : Members
health_result = member (codes "ok") (boolean true) (
    member (codes "version") (string (codes "1.0.2")) (
      member (codes "app") (string (codes "ZMUX")) (
        member (codes "type") (string (codes "terminal")) (
          member (codes "status") (string (codes "idle"))
            (member (codes "runtime") (string (codes "alpine-pty")) no_members)))))

module _ (ops : ShellOps) (backend : Backend ops) where
  open ops use {Shell}
  open backend use {Packages}

  -- An answer about the session, which its first use creates.
  unfoldable pub about_session :
      (Session Shell → Members) → App Shell Packages → Reply × App Shell Packages
  about_session result a =
      let s = get_session ops backend a in
      (
        reply 200 (legacy_rest_result legacy_rest_deprecation (result s)),
        record a { session = some s },
      )

  unfoldable pub send_text : Json → App Shell Packages → Reply × App Shell Packages
  send_text (string text) a = about_session (λ s. send_input_result) a
  send_text j a = (reply 400 (message_of (codes "Field 'text' must be a string")), a)

  -- `send_input`
  unfoldable pub send_input : Payload → App Shell Packages → Reply × App Shell Packages
  send_input (refused r) a = (r, a)
  send_input (parsed payload) a = send_text (member_or (codes "text") (string []) payload) a

  abbrev pub prompt_of : Session Shell → Json
  prompt_of s = string (get_prompt backend.display_path s)

  -- Flask's own view of `static_folder`.
  unfoldable pub served : Option Bytes → Reply
  served none = not_found
  served (some content) = content_of content

  -- The functions of the routes.
  unfoldable pub respond : Text → Request → Route → App Shell Packages → Reply × App Shell Packages
  respond auth_token r (static path) a = (served (backend.static_file path), a)
  respond auth_token r index a = (page auth_token, a)
  respond auth_token r health a = (reply 200 health_result, a)
  respond auth_token r exec a = exec_payload ops backend (get_json_payload r) a
  respond auth_token r input a = send_input (get_json_payload r) a
  respond auth_token r stop a =
      about_session (λ s. set_member (codes "prompt") (prompt_of s) stop_result) a
  respond auth_token r status a =
      about_session
        (λ s. member (codes "ok") (boolean true) (
          member (codes "status") (string s.status) (
            member (codes "exit_code") s.exit_code (
              member (codes "cwd") (string s.directory)
                (member (codes "prompt") (prompt_of s) no_members)))))
        a
  respond auth_token r prompt a =
      about_session
        (λ s. member (codes "ok") (boolean true) (member (codes "prompt") (prompt_of s) no_members))
        a

  -- The routes that `require_auth` does not guard.
  unfoldable pub is_open : Route → Bool
  is_open (static path) = true
  is_open index = true
  is_open health = true
  is_open _ = false

  -- `wrapped` of `require_auth`, with what `verify_token` answers.
  unfoldable pub guarded :
      Option Bool → Text → Request → Route → App Shell Packages → Reply × App Shell Packages
  guarded none auth_token r route a = (failed, a)
  guarded (some false) auth_token r route a = (reply 401 (message_of (codes "Access denied")), a)
  guarded (some true) auth_token r route a = respond auth_token r route a

  unfoldable pub handle_route :
      Text → Request → Route → App Shell Packages → Reply × App Shell Packages
  handle_route auth_token r route a =
      if is_open route
      then respond auth_token r route a
      else guarded (verify_token auth_token r.token) auth_token r route a

  -- A request.
  abbrev pub handle : Text → Request → App Shell Packages → Reply × App Shell Packages
  handle auth_token r a = handle_route auth_token r r.route a

  unfoldable pub handle_all :
      Text → List Request → App Shell Packages → List Reply × App Shell Packages
  handle_all auth_token [] a = ([], a)
  handle_all auth_token (r ∷ rs) a =
      let (answer, a') = handle auth_token r a in
      let (answers, a'') = handle_all auth_token rs a' in (answer ∷ answers, a'')
