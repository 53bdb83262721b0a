-- ===== src/Rest/Api.antt =====
-- The endpoints of app/zmux/server.py. A request that Flask has routed is a `Request`; what it answers is
-- a dictionary with a status code.
use zabawheels.Prelude.Int.{ℤ}
use zabawheels.Prelude.Json.{
  Json, null, boolean, string, array, object, no_items, item, Members, no_members, member,
  has_member,
}
use zabawheels.Prelude.{
  ℕ, Bytes, Bool, true, false, ◌||◌, Option, none, some, ◌++◌, Text, codes, bytes_eq, strip,
  is_empty, if◌then◌else◌,
}
use zabawheels.Rest.Session.{ShellOps, Session, set_member, set_default, member_or}

-- The routes behind `require_auth`, and those that are open: the terminal page, the health check, and the
-- files under `static_url_path`.
pub data Route : Type 0 where
  static : Text → Route
  index : Route
  health : Route
  exec : Route
  input : Route
  stop : Route
  status : Route
  prompt : Route

-- `X-ZMUX-Token`, empty where there is none; what `request.get_json(silent=True)` makes of the body; and
-- the body's text.
pub record Request : Type 0 where
  pub route : Route
  pub token : Text
  pub json : Option Json
  pub body : Text

-- `failed` is the answer of Flask to an exception, with code 500; `page` the terminal page with the token
-- that it carries, `content_of` a static file, and `not_found` the code 404 where there is none.
pub data Reply : Type 0 where
  reply : ℕ → Members → Reply
  failed : Reply
  page : Text → Reply
  content_of : Bytes → Reply
  not_found : Reply

-- What `float` makes of a value: it raises a `TypeError` or a `ValueError` for what is no number, and an
-- `OverflowError`, which is neither, for a whole number that is too large.
pub data Float (T : Type 0) : Type 0 where
  seconds : T → Float T
  no_number : Float T
  too_large : Float T

-- What the endpoints call outside app/zmux/server.py and app/zmux/terminal.py: `zpip` with the state that
-- it works on, the fingerprint's text, `float`, `int`, `str.lower`, `display_path`, and Flask's reading of
-- a file in `static_folder`.
pub record Backend (ops : ShellOps) : Type 1 where
  pub Packages : Type 0
  pub dispatch : Text → Packages → Packages × Members
  pub format_output : Text → Members → Text × ℤ
  pub fingerprint : Text
  pub float_of : Json → Float ops.Time
  pub int_of_text : Text → Option ℤ
  pub to_lower : Text → Text
  pub display_path : Text → Text
  pub home_dir : Text
  pub static_file : Text → Option Bytes

-- `_terminal_session`, None before its first use, and the packages.
pub record App (S : Type 0) (P : Type 0) : Type 0 where
  pub session : Option (Session S)
  pub packages : P

abbrev pub message_of : Text → Members
message_of text =
    member (codes "ok") (boolean false) (member (codes "message") (string text) no_members)

-- The payload of `_get_json_payload`, or the response that it makes.
pub data Payload : Type 0 where
  parsed : Members → Payload
  refused : Reply → Payload

abbrev bad_payload : Text → Text → Payload
bad_payload code text =
    refused (reply 400 (set_member (codes "code") (string code) (message_of text)))

-- A body that is not JSON, or is `null`.
unfoldable pub blank_payload : Text → Payload
blank_payload body =
    if is_empty (strip body)
    then parsed no_members
    else bad_payload (codes "invalid_json") (codes "Invalid JSON")

unfoldable pub payload_of : Option Json → Text → Payload
payload_of none body = blank_payload body
payload_of (some null) body = blank_payload body
payload_of (some (object d)) body = parsed d
payload_of (some j) body = bad_payload (codes "invalid_json_type") (codes "JSON must be object")

-- `_get_json_payload`
unfoldable pub get_json_payload : Request → Payload
get_json_payload r = payload_of r.json r.body

-- `_legacy_rest_result`
unfoldable pub legacy_rest_result : Text → Members → Members
legacy_rest_result deprecation payload = set_default (codes "deprecation") (string deprecation) (
    set_default (codes "legacy_status") (string (codes "compatibility-only")) (
      set_default (codes "legacy_endpoint") (boolean true)
        (set_default (codes "legacy") (boolean true) payload)))

-- `LEGACY_REST_DEPRECATION` and `LEGACY_EXEC_DEPRECATION`
abbrev pub legacy_rest_deprecation : Text
legacy_rest_deprecation =
    codes
      "REST terminal session endpoints are retained for compatibility only. The WebView terminal uses authenticated WebSocket input connected to the Alpine PTY shell."

abbrev pub legacy_exec_deprecation : Text
legacy_exec_deprecation =
    codes
      "REST /api/exec is retained for compatibility only. The WebView terminal uses authenticated WebSocket input connected to the Alpine PTY shell."

-- `_legacy_exec_result`
unfoldable pub legacy_exec_result : Text → Bool → Members → Members
legacy_exec_result language explicit payload = legacy_rest_result legacy_exec_deprecation (
    set_default (codes "language") (string language) (
      set_default (codes "explicit_language") (boolean explicit) (
        set_default (codes "legacy_input_mode") (string (codes "legacy-auto-command-or-python"))
          payload)))

-- What `_get_exec_language` finds: the language and whether it was asked for, or a response.
pub data Language : Type 0 where
  spoken : Text → Bool → Language
  unspoken : Reply → Language

abbrev bad_language : Text → Language
bad_language text = unspoken (
    reply 400 (
      member (codes "ok") (boolean false) (
        member (codes "code") (string (codes "invalid_language")) (
          member (codes "message") (string text) (
            member (codes "supported")
              (array (
                item (string (codes "command"))
                  (item (string (codes "legacy-auto")) (item (string (codes "python")) no_items))))
              (member (codes "planned") (array no_items) no_members))))))

-- `language in EXEC_LANGUAGES_IMPLEMENTED`
unfoldable pub is_implemented : Text → Bool
is_implemented language =
    bytes_eq language (codes "legacy-auto")
    || bytes_eq language (codes "python")
    || bytes_eq language (codes "command")

-- The test of a language; none is planned, so code 501 is never answered.
unfoldable pub language_of : (Text → Text) → Bool → Json → Language
language_of to_lower explicit (string raw) =
    if is_implemented (to_lower (strip raw))
    then spoken (to_lower (strip raw)) explicit
    else bad_language (codes "Unsupported /api/exec language: " ++ raw)
language_of to_lower explicit j = bad_language (codes "Field 'language' must be a string")

-- `_get_exec_language`
unfoldable pub get_exec_language : (Text → Text) → Members → Language
get_exec_language to_lower payload =
    language_of to_lower (has_member (codes "language") (object payload))
      (member_or (codes "language") (string (codes "legacy-auto")) payload)
