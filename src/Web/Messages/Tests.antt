-- ===== src/Web/Messages/Tests.antt =====
-- The messages of app/zmux/ws_server.py at concrete frames, over real terminals.
use zabawheels.Prelude.Int.{pos}
use zabawheels.Prelude.Json.{Json, string, number, object, no_members, member, find_member, is_text}
use zabawheels.Prelude.{
  ℕ, ◌≡◌, refl, Bool, true, Option, none, some, List, [], ◌∷◌, Text, codes, bytes_eq, starts_with,
  strip, strip_left, strip_right, if◌then◌else◌,
}
use zabawheels.Pty.Session.{Host, toggle_pty}
use zabawheels.Sessions.{SessionOps}
use zabawheels.Sessions.History.{new, keys_typed, resized}
use zabawheels.Sessions.Tabs.{first_bar, follow_all}
use zabawheels.Sessions.Terminals.{terminal_ops, call}
use zabawheels.Web.Messages.{Python, new_hub, get_or_default, int_of, message_loop}
use zabawheels.Web.Messages.Asked.{Follows, calls_of_message, calls_of, pongs}
use zabawheels.Web.Messages.Routing.{message_loop-Follows}

abbrev phone : Host
phone = record {
  installed = true;
  has_proot = true;
  argv_error = none;
  spawn_error = none;
  has_running_processes = true;
  python_version = codes "3.14.2";
  setup_gate_enabled = true;
  rc_output = [];
}

abbrev ops : SessionOps
ops = terminal_ops phone (λ bytes. bytes) (codes "~")

-- A reader of JSON that knows two texts.
abbrev loads : Text → Option Json
loads text =
    if bytes_eq text (codes "{new}")
    then some (object (member (codes "action") (string (codes "session.new")) no_members))
    else if bytes_eq text (codes "{fit}")
    then some (
        object (
          member (codes "action") (string (codes "resize"))
            (member (codes "cols") (number (pos 40)) no_members)))
    else none

abbrev python : Python
python = record { decode = some; loads = loads; int_of_text = λ text. none; repr = λ value. [] }

-- Each pong is sent.
abbrev always : List (ℕ × Text) → Bool
always frames = true

abbrev frames : List (ℕ × Text)
frames =
    (1, codes "{new}")
    ∷ (9, codes "hi")
    ∷ (2, codes "{fit}")
    ∷ (2, codes "{ls}")
    ∷ (8, [])
    ∷ (1, codes "{new}")
    ∷ []

-- A text in braces that is no JSON is typed, and what follows the close is not read.
frames_calls :
    calls_of always python frames
    ≡ new true ∷ resized (pos 40) (pos 24) ∷ keys_typed (codes "{ls}") ∷ []
unfolding calls_of calls_of_message get_or_default int_of find_member is_text bytes_eq starts_with
    strip strip_left strip_right
frames_calls = refl

message_loop-Follows_example :
    Follows
      (message_loop ops (call (toggle_pty phone)) python always frames new_hub).0.manager
      (follow_all (calls_of always python frames) first_bar)
    × ((message_loop ops (call (toggle_pty phone)) python always frames new_hub).1
        ≡ pongs always frames)
message_loop-Follows_example =
    message_loop-Follows ops (call (toggle_pty phone)) python always frames new_hub first_bar refl
