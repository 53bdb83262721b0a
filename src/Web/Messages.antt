-- ===== src/Web/Messages.antt =====
-- What a client's messages do: `_handle_client_message`, `_handle_session_action` and the message loop of
-- `_handle_client` (app/zmux/ws_server.py), with the callbacks that `run_server` (app/zmux/server.py)
-- registers.
pub mod Asked
pub mod Routing
mod Tests
use mathlib.Core.Option
use zabawheels.Prelude.Optional.{◌>>=◌}
use zabawheels.Prelude.Decimal.{str}
use zabawheels.Prelude.Dict.{lookup}
use zabawheels.Prelude.Int.{ℤ, pos, negsuc}
use zabawheels.Prelude.Json.{
  Json, null, boolean, number, string, array, object, find_member, is_text,
}
use zabawheels.Prelude.{
  ℕ, suc, ◌+◌, Bool, true, false, ◌&&◌, ◌||◌, Option, none, some, List, [], ◌∷◌, ◌++◌, Bytes, Text,
  codes, bytes_eq, starts_with, strip, is_empty, ◌==◌, if◌then◌else◌,
}
use zabawheels.Sessions.{
  SessionOps, Manager, max_sessions, reset_terminal_screen, broadcast, emit_for, put_session,
  create, switch, close, write_input, resize, snapshot, get_manager,
}

-- What Python's libraries and built-in functions answer: the decoding of UTF-8 and `json.loads`, which
-- may raise, `int` of a text, which may raise too, and `str` of a list or a dictionary.
pub record Python : Type 0 where
  pub decode : Bytes → Option Text
  pub loads : Text → Option Json
  pub int_of_text : Text → Option ℤ
  pub repr : Json → Text

-- The tab commands, and the other control actions.
pub data TabAction : Type 0 where
  tab_new : TabAction
  tab_switch : Text → TabAction
  tab_close : Text → TabAction
  tab_list : TabAction

pub data Control : Type 0 where
  fit : ℤ → ℤ → Control
  tabs : TabAction → Control
  toggle : Control

abbrev pub is_last : ℕ → Text → Bool
is_last c [] = false
is_last c (d ∷ []) = d == c
is_last c (d ∷ e ∷ text) = is_last c (e ∷ text)

-- `data.get(key, default)`; `none` where `data` is no dictionary.
unfoldable pub get_or_default : Text → Json → Json → Option Json
get_or_default key default (object js) = elim (find_member key js) [
  | none ↦ some default
  | some j ↦ some j
]
get_or_default key default _ = none

module _ (python : Python) where
  -- `int(value)`
  unfoldable pub int_of : Json → Option ℤ
  int_of (number z) = some z
  int_of (boolean true) = some (pos 1)
  int_of (boolean false) = some (pos 0)
  int_of (string s) = python.int_of_text s
  int_of _ = none

  -- `str(value)`
  unfoldable pub str_of : Json → Text
  str_of null = codes "None"
  str_of (boolean true) = codes "True"
  str_of (boolean false) = codes "False"
  str_of (number (pos n)) = str n
  str_of (number (negsuc n)) = codes "-" ++ str (suc n)
  str_of (string s) = s
  str_of j = python.repr j

  -- The `resize` action.
  unfoldable pub fit_of : Json → Option Control
  fit_of fields = do
    cols_value ← get_or_default (codes "cols") (number (pos 80)) fields
    cols ← int_of cols_value
    rows_value ← get_or_default (codes "rows") (number (pos 24)) fields
    rows ← int_of rows_value
    some (fit cols rows)

  -- `str(data.get("id", ""))`
  unfoldable pub id_of : Json → Option Text
  id_of fields = Option.map str_of (get_or_default (codes "id") (string []) fields)

  -- The action that a dictionary asks for, if it asks for one.
  unfoldable pub action_of : Json → Json → Option Control
  action_of action fields =
      if is_text (codes "resize") action
      then fit_of fields
      else if is_text (codes "session.new") action
      then some (tabs tab_new)
      else if is_text (codes "session.switch") action
      then Option.map (λ id. tabs (tab_switch id)) (id_of fields)
      else if is_text (codes "session.close") action
      then Option.map (λ id. tabs (tab_close id)) (id_of fields)
      else if is_text (codes "session.list") action
      then some (tabs tab_list)
      else if is_text (codes "pty.toggle") action
      then some toggle
      else none

  -- The text looks like a JSON object.
  abbrev pub is_braced : Text → Bool
  is_braced text = starts_with (codes "{") (strip text) && is_last 0x7d (strip text)

  -- The control action of a message; `none` for keystrokes, and where an exception is swallowed.
  unfoldable pub control_of : Bytes → Option Control
  control_of payload = do
    text ← python.decode payload
    fields ← if is_braced text then python.loads text else none
    action ← get_or_default (codes "action") null fields
    action_of action fields

-- The module's `_manager`, whether `run_server` has registered the callbacks, and what
-- `_send_sessions_state` has sent.
pub record Hub (S : Type 0) : Type 0 where
  pub manager : Option (Manager S)
  pub registered : Bool
  pub states : List (List (Text × Option Bool) × Option Text × ℕ)

abbrev pub new_hub : {S : Type 0} → Hub S
new_hub = record { manager = none; registered = false; states = [] }

-- The message of the `ValueError` of `create`, as a client sees it.
abbrev pub limit_notice : Bytes
limit_notice = codes "\r\n[zmux: session limit reached (8)]\r\n"

module _ (ops : SessionOps) (toggle_pty : ops.Session → ops.Session × List Bytes) where
  open ops use {Session}

  -- `manager.switch(manager.create())`, with what `create` answers, or the notice of its exception.
  unfoldable pub open_tab : Option (Manager Session) → Manager Session → Manager Session
  open_tab none m = broadcast limit_notice m
  open_tab (some m') m = (switch ops (str (m.counter + 1)) m').0

  -- `manager.close(…)`, likewise.
  unfoldable pub shut_tab : Option (Manager Session × Bool) → Manager Session → Manager Session
  shut_tab none m = broadcast limit_notice m
  shut_tab (some (m', answer)) m = m'

  -- The `try` of `_handle_session_action`.
  unfoldable pub perform_tab : TabAction → Manager Session → Manager Session
  perform_tab tab_new m = open_tab (create ops true m) m
  perform_tab (tab_switch id) m = (switch ops id m).0
  perform_tab (tab_close id) m = shut_tab (close ops id m) m
  perform_tab tab_list m = m

  -- The manager in its place, and its state sent to the clients.
  abbrev pub send_state : Hub Session → Manager Session → Hub Session
  send_state hub m = record hub { manager = some m; states = hub.states ++ snapshot ops m ∷ [] }

  unfoldable pub toggle_in : Text → Option Session → Manager Session → Manager Session
  toggle_in id none m = m
  toggle_in id (some session) m =
      let (session', outs) = toggle_pty session in emit_for id outs (put_session id session' m)

  -- `session.toggle_pty()` of the session on screen.
  unfoldable pub toggle_active : Option Text → Manager Session → Manager Session
  toggle_active none m = m
  toggle_active (some a) m = toggle_in a (lookup a m.sessions) m

  -- `on_resize_callback(cols, rows)` and `on_data_callback(payload)`, where they are registered.
  unfoldable pub on_resize : ℤ → ℤ → Hub Session → Hub Session
  on_resize cols rows hub =
      if hub.registered
      then record hub { manager = Option.map (resize ops cols rows) hub.manager }
      else hub

  unfoldable pub on_data : Bytes → Hub Session → Hub Session
  on_data payload hub =
      if hub.registered
      then record hub { manager = Option.map (write_input ops payload) hub.manager }
      else hub

  -- A control action; `none` where it raises.
  unfoldable pub obey : Control → Hub Session → Option (Hub Session)
  obey (fit cols rows) hub = some (on_resize cols rows hub)
  obey (tabs action) hub =
      Option.map (λ m. send_state hub (perform_tab action m)) (get_manager ops hub.manager)
  obey toggle hub =
      Option.map (λ m. record hub { manager = some (toggle_active m.active m) })
        (get_manager ops hub.manager)

  abbrev or_input : Option (Hub Session) → Bytes → Hub Session → Hub Session
  or_input none payload hub = on_data payload hub
  or_input (some hub') payload hub = hub'

  abbrev obeyed : Option Control → Hub Session → Option (Hub Session)
  obeyed none hub = none
  obeyed (some control) hub = obey control hub

  -- The callbacks of `run_server`.
  unfoldable pub register : Hub Session → Option (Hub Session)
  register hub =
      Option.map (λ m. record hub { manager = some m; registered = true })
        (get_manager ops hub.manager)

  module _ (python : Python) where
    -- `_handle_client_message`
    unfoldable pub handle_client_message : Bytes → Hub Session → Hub Session
    handle_client_message payload hub =
        or_input (obeyed (control_of python payload) hub) payload hub

    -- The message loop of `_handle_client`, on the frames that the client sends: what is sent back to
    -- it, with the opcodes. `sends` tells whether a pong can be sent, when these frames are still to
    -- come; where it cannot, the exception ends the loop.
    unfoldable pub message_loop :
        (List (ℕ × Bytes) → Bool) → List (ℕ × Bytes) → Hub Session → Hub Session × List (ℕ × Bytes)
    message_loop sends [] hub = (hub, [])
    message_loop sends ((opcode, payload) ∷ frames) hub =
        let pinged = message_loop sends frames hub in
        let handled = message_loop sends frames (handle_client_message payload hub) in
        if opcode == 8
        then (hub, [])
        else if opcode == 9
        then if sends frames then (pinged.0, (10, payload) ∷ pinged.1) else (hub, [])
        else if opcode == 1 || opcode == 2
        then handled
        else pinged

  -- The scrollback of the session on screen.
  abbrev pub active_scrollback : Manager Session → Bytes
  active_scrollback m = elim m.active [
    | none ↦ []
    | some a ↦ elim (lookup a m.sessions) [ none ↦ [] | some session ↦ ops.scrollback session ]
  ]

  -- What a client is sent when it has been let in.
  abbrev pub first_frames : Bytes → List (ℕ × Bytes)
  first_frames [] = (2, reset_terminal_screen) ∷ []
  first_frames (b ∷ bytes) = (2, reset_terminal_screen) ∷ (2, b ∷ bytes) ∷ []

  unfoldable pub welcome : Hub Session → Option (Hub Session × List (ℕ × Bytes))
  welcome hub =
      Option.map (λ m. (send_state hub m, first_frames (active_scrollback m)))
        (get_manager ops hub.manager)
