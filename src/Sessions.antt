-- ===== src/Sessions.antt =====
-- app/zmux/sessions.py: `SessionManager`. A session is behind the interface `SessionOps`; an id is the
-- text of a counter; a dictionary is the list of its items in the order of insertion.
pub mod Valid
pub mod Creating
pub mod Switching
pub mod Closing
pub mod Isolation
pub mod History
pub mod Tabs
pub mod Terminals
mod Tests
use mathlib.Core.Option
use zabawheels.Prelude.Decimal.{str}
use zabawheels.Prelude.Dict.{has_id, remove, lookup, insert, delete}
use zabawheels.Prelude.Int.{ℤ, pos, is_positive}
use zabawheels.Prelude.{
  ℕ, zero, suc, ◌+◌, ◌-◌, min, Bool, true, false, ◌&&◌, ◌||◌, not, Option, none, some, List, [],
  ◌∷◌, ◌++◌, map, Bytes, Text, codes, bytes_eq, length, get_elem?, leb, if◌then◌else◌,
}

-- What the manager calls on a `PTYTerminalSession`. A call that may write to the session's emit
-- callback returns what it writes, in order.
pub record SessionOps : Type 1 where
  pub Session : Type 0
  pub fresh : Session
  pub start : Session → Session × List Bytes
  pub stop : Session → List Bytes
  pub resize : ℤ → ℤ → Session → Session
  pub write_input : Bytes → Session → Session × List Bytes
  pub scrollback : Session → Bytes
  pub is_busy : Session → Bool

-- `_broadcasts` is the log of `ws_server.broadcast`.
pub record Manager (S : Type 0) : Type 0 where
  pub sessions : List (Text × S)
  pub order : List Text
  pub active : Option Text
  pub counter : ℕ
  pub cols : ℤ
  pub rows : ℤ
  pub broadcasts : List Bytes

-- `MAX_SESSIONS`
abbrev pub max_sessions : ℕ
max_sessions = 8

-- `RESET_TERMINAL_SCREEN`
pub reset_terminal_screen : Bytes
reset_terminal_screen =
    0x1b ∷ codes "[?1049l"
    ++ (0x1b ∷ codes "[?47l"
        ++ (0x1b ∷ codes "[?1047l" ++ (0x1b ∷ codes "[2J" ++ (0x1b ∷ codes "[H"))))

-- `self._active == session_id`
unfoldable pub is_active : Option Text → Text → Bool
is_active none id = false
is_active (some a) id = bytes_eq a id

abbrev pub is_none {ℓ} : {A : Type ℓ} → Option A → Bool
is_none none = true
is_none (some a) = false

-- The position of the first item that is the id.
unfoldable pub index_of : Text → List Text → ℕ
index_of id [] = 0
index_of id (x ∷ xs) = if bytes_eq x id then 0 else suc (index_of id xs)

module _ {S : Type 0} where
  -- `__init__`
  abbrev pub new_manager : Manager S
  new_manager = record {
    sessions = [];
    order = [];
    active = none;
    counter = 0;
    cols = pos 80;
    rows = pos 24;
    broadcasts = [];
  }

  -- `if scrollback: self.ws_server.broadcast(scrollback)`
  unfoldable pub replay : Bytes → Manager S → Manager S
  replay [] m = m
  replay (b ∷ bytes) m = record m { broadcasts = m.broadcasts ++ (b ∷ bytes) ∷ [] }

  -- `ws_server.broadcast`
  abbrev pub broadcast : Bytes → Manager S → Manager S
  broadcast bytes m = record m { broadcasts = m.broadcasts ++ bytes ∷ [] }

  -- `_emit_for`: what a session writes is on screen while that session is the active one.
  unfoldable pub emit_for : Text → List Bytes → Manager S → Manager S
  emit_for id outs m =
      if is_active m.active id then record m { broadcasts = m.broadcasts ++ outs } else m

  unfoldable pub put_session : Text → S → Manager S → Manager S
  put_session id v m = record m { sessions = insert id v m.sessions }

module _ (ops : SessionOps) where
  open ops use {Session}

  -- The part of `create` before the session starts: the session enters the tables and may become the
  -- active one, and a page that was on screen is wiped before a fresh one.
  unfoldable pub enter_tables : Bool → Text → Manager Session → Manager Session
  enter_tables activate id m =
      let shown = activate || is_none m.active in
      let wipes = activate && not (is_none m.active) && not (is_active m.active id) in
      record m {
        sessions = insert id ops.fresh m.sessions;
        order = m.order ++ id ∷ [];
        active = if shown then some id else m.active;
        counter = m.counter + 1;
        broadcasts = if wipes then m.broadcasts ++ reset_terminal_screen ∷ [] else m.broadcasts;
      }

  -- The rest of `create`, with the new id.
  unfoldable pub add_session : Bool → Text → Manager Session → Manager Session
  add_session activate id m =
      let (started, outs) = ops.start (ops.resize m.cols m.rows ops.fresh) in
      emit_for id outs (put_session id started (enter_tables activate id m))

  -- `create`; `none` is the `ValueError` at the limit.
  unfoldable pub create : Bool → Manager Session → Option (Manager Session)
  create activate m =
      if leb max_sessions (length m.sessions)
      then none
      else some (add_session activate (str (m.counter + 1)) m)

  -- The repaint of `switch`: the session that comes on screen.
  unfoldable pub show_session : Text → Session → Manager Session → Manager Session
  show_session id session m =
      let resized =
        put_session id (ops.resize m.cols m.rows session) (record m { active = some id }) in
      replay (ops.scrollback (ops.resize m.cols m.rows session))
        (broadcast reset_terminal_screen resized)

  unfoldable pub switch_found : Text → Option Session → Manager Session → Manager Session × Bool
  switch_found id none m = (m, false)
  switch_found id (some session) m =
      (if is_active m.active id then m else show_session id session m, true)

  -- `switch`
  unfoldable pub switch : Text → Manager Session → Manager Session × Bool
  switch id m = switch_found id (lookup id m.sessions) m

  -- The neighbour that takes the place of the item that stood at `index`.
  unfoldable pub successor : ℕ → List Text → Option Text
  successor index order = get_elem? order (min index (length order - 1))

  -- The end of `close`: a fresh session when none is left, a repaint when the visible one went.
  unfoldable pub reopen : Bool → Option Text → Manager Session → Option (Manager Session)
  reopen was_active none m = create true m
  reopen was_active (some a) m =
      some (if was_active then (switch a (record m { active = none })).0 else m)

  -- The part of `close` under the lock: the tab leaves the tables, and if it was on screen the tab to
  -- its right, or else the last one, takes its place.
  unfoldable pub take_out : Text → Manager Session → Manager Session
  take_out id m =
      let order = remove id m.order in
      record m {
        sessions = delete id m.sessions;
        order = order;
        active = if is_active m.active id then successor (index_of id m.order) order else m.active;
      }

  unfoldable pub close_found :
      Text → Option Session → Manager Session → Option (Manager Session × Bool)
  close_found id none m = some (m, false)
  close_found id (some session) m =
      let removed = take_out id m in
      Option.map (λ closed. (closed, true))
        (reopen (is_active m.active id) (emit_for id (ops.stop session) removed).active
          (emit_for id (ops.stop session) removed))

  -- `close`; `none` is a `ValueError` of `create`.
  unfoldable pub close : Text → Manager Session → Option (Manager Session × Bool)
  close id m = close_found id (lookup id m.sessions) m

  unfoldable pub input_to : Text → Option Session → Bytes → Manager Session → Manager Session
  input_to id none bytes m = m
  input_to id (some session) bytes m =
      let (session', outs) = ops.write_input bytes session in
      emit_for id outs (put_session id session' m)

  unfoldable pub input_at : Option Text → Bytes → Manager Session → Manager Session
  input_at none bytes m = m
  input_at (some a) bytes m = input_to a (lookup a m.sessions) bytes m

  -- `write_input`: keystrokes go to the active session.
  unfoldable pub write_input : Bytes → Manager Session → Manager Session
  write_input bytes m = input_at m.active bytes m

  unfoldable pub resize_to : Text → Option Session → Manager Session → Manager Session
  resize_to id none m = m
  resize_to id (some session) m = put_session id (ops.resize m.cols m.rows session) m

  unfoldable pub resize_at : Option Text → Manager Session → Manager Session
  resize_at none m = m
  resize_at (some a) m = resize_to a (lookup a m.sessions) m

  -- `resize`
  unfoldable pub resize : ℤ → ℤ → Manager Session → Manager Session
  resize columns lines m =
      if not (is_positive columns) || not (is_positive lines)
      then m
      else resize_at m.active (record m { cols = columns; rows = lines })

  -- `stop_all`: the sessions are stopped after they have left the tables, so nothing is shown.
  unfoldable pub stop_all : Manager Session → Manager Session
  stop_all m = record m { sessions = []; order = []; active = none }

  -- `snapshot`: the ids with their busy marks, the active id and the limit.
  unfoldable pub snapshot : Manager Session → List (Text × Option Bool) × Option Text × ℕ
  snapshot m = (
    map (λ id. (id, Option.map ops.is_busy (lookup id m.sessions))) m.order,
    m.active,
    max_sessions,
  )

  -- `get_manager`, on first use.
  unfoldable pub get_manager : Option (Manager Session) → Option (Manager Session)
  get_manager none = create true new_manager
  get_manager (some m) = some m
