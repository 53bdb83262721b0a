-- ===== src/Pty/Terminal.antt =====
-- The state of `PTYTerminalSession` (app/zmux/pty_session.py), and `_emit`, through which all of its
-- output goes: the control filter, the scrollback and the cursor's place.
pub mod Fields
pub mod Scrollback
use zabawheels.Prelude.{
  ℕ, zero, suc, ◌+◌, ◌*◌, Bool, true, false, ◌||◌, Option, none, some, List, [], ◌∷◌, ◌++◌, map,
  Bytes, Text, codes, find, bytes_eq, starts_with, encode, length, take_last, if◌then◌else◌,
}
use zabawheels.Pty.Control.{Filtered, storage_setup_osc, filter_pty_controls}

-- `_mode`
pub data Mode : Type 0 where
  shell repl : Mode

-- `_esc_state`
pub data EscState : Type 0 where
  plain esc csi ss3 : EscState

-- What a session does to the rest of the app, in order: bytes for the screen, bytes and calls for a
-- `RealPtyProcess` (by its number), and the calls of the shell, of the storage worker's thread and
-- of the interrupt injection.
pub data Effect : Type 0 where
  output : Bytes → Effect
  pty_spawn : ℕ → Effect
  pty_write : ℕ → Bytes → Effect
  pty_resize : ℕ → ℕ → ℕ → Effect
  pty_kill : ℕ → Effect
  storage_worker : Effect
  shell_interrupt : Effect
  inject_keyboard_interrupt : Effect

-- A line for the worker with the mode that it was typed in; `none` is the poison pill.
abbrev pub Command : Type 0
Command = Option (Text × Mode)

pub record Terminal : Type 0 where
  pub is_running : Bool
  pub busy : Bool
  pub interrupted : Bool
  pub interrupt_epoch : ℕ
  pub mode : Mode
  pub esc_state : EscState
  pub line_buffer : Text
  pub python_lines : List Text
  pub pty : Option ℕ
  pub spawned : ℕ
  pub rows : ℕ
  pub cols : ℕ
  pub shell_width : ℕ
  pub at_line_start : Bool
  pub history : List Text
  pub history_index : Option ℕ
  pub history_stash : Text
  pub awaiting_alpine : Bool
  pub start_alpine_after_command : Bool
  pub control_tail : Bytes
  pub storage_setup_pending : Bool
  pub scrollback_buffer : Bytes
  pub command_queue : List Command
  pub stdin_queue : List Text
  pub cwd : Text
  pub effects : List Effect

-- `1 << 20`
unfoldable pub scrollback_max_size : ℕ
scrollback_max_size = 1024 * 1024

-- `__init__`
abbrev pub new_terminal : Text → Terminal
new_terminal cwd = record {
  is_running = false;
  busy = false;
  interrupted = false;
  interrupt_epoch = 0;
  mode = shell;
  esc_state = plain;
  line_buffer = [];
  python_lines = [];
  pty = none;
  spawned = 0;
  rows = 24;
  cols = 80;
  shell_width = 80;
  at_line_start = true;
  history = [];
  history_index = none;
  history_stash = [];
  awaiting_alpine = false;
  start_alpine_after_command = false;
  control_tail = [];
  storage_setup_pending = false;
  scrollback_buffer = [];
  command_queue = [];
  stdin_queue = [];
  cwd = cwd;
  effects = [];
}

abbrev pub act : Effect → Terminal → Terminal
act e t = record t { effects = t.effects ++ e ∷ [] }

-- `data.endswith(suffix)`
unfoldable pub ends_with : Bytes → Bytes → Bool
unfolding bytes_eq
ends_with suffix bytes = bytes_eq (take_last (length suffix) bytes) suffix

-- `needle in data`
unfoldable pub contains : Bytes → Bytes → Bool
unfolding find
contains needle bytes = elim (find needle bytes) [ none ↦ false | some _ ↦ true ]

-- `_request_storage_setup`: while a worker is pending, a request does nothing.
unfoldable pub request_storage_setup : Terminal → Terminal
request_storage_setup t =
    if t.storage_setup_pending
    then t
    else act storage_worker (record t { storage_setup_pending = true })

-- `for _ in range(storage_requests)`
unfoldable pub request_times : ℕ → Terminal → Terminal
unfolding request_storage_setup
request_times zero t = t
request_times (suc n) t = request_times n (request_storage_setup t)

-- The new `_at_line_start`, from the bytes shown and the old value.
unfoldable pub line_start_after : Bytes → Bool → Bool
unfolding ends_with contains
line_start_after bytes before =
    if contains (0x1b ∷ codes "[2J") bytes || ends_with (0x1b ∷ codes "[H") bytes
    then true
    else if ends_with (10 ∷ []) bytes
    then true
    else if ends_with (13 ∷ []) bytes
    then before
    else false

-- The part of `_emit` for visible bytes: scrollback, cursor, and then the callback.
unfoldable pub show_bytes : Bytes → Terminal → Terminal
unfolding line_start_after
show_bytes [] t = t
show_bytes (b ∷ bytes) t = act (output (b ∷ bytes)) (record t {
  scrollback_buffer = take_last scrollback_max_size (t.scrollback_buffer ++ b ∷ bytes);
  at_line_start = line_start_after (b ∷ bytes) t.at_line_start;
})

-- `_emit`
unfoldable pub emit : Bytes → Terminal → Terminal
unfolding filter_pty_controls request_times show_bytes storage_setup_osc scrollback_max_size
emit bytes t =
    let f = filter_pty_controls storage_setup_osc t.control_tail bytes in
    show_bytes f.out (request_times f.controls (record t { control_tail = f.control_tail }))

-- `_prompt`, of the mode and of the working directory as `display_path` shows it.
unfoldable pub prompt : Mode → Text → Text
prompt repl cwd = codes ">>> "
prompt shell cwd = codes "zmux:" ++ (cwd ++ codes "$ ")

-- Never paste a prompt onto the tail of an unterminated line.
unfoldable pub fresh_line : Terminal → Terminal
unfolding emit
fresh_line t = if t.at_line_start then t else emit (13 ∷ 10 ∷ []) t

-- `_emit_prompt`
unfoldable pub emit_prompt : Terminal → Terminal
unfolding fresh_line prompt encode
emit_prompt t = let u = fresh_line t in emit (encode (prompt u.mode u.cwd)) u

-- `_emit_setup_prompt`
unfoldable pub emit_setup_prompt : Terminal → Terminal
unfolding fresh_line
emit_setup_prompt t = emit (codes "alpine-setup> ") (fresh_line t)
