-- ===== src/Pty/Editor.antt =====
-- The line editor of `PTYTerminalSession`: the history (`_history_step`, `_replace_line`,
-- `_history_record`) and the escape sequences (`_handle_escape_char`).
pub mod History
use zabawheels.Prelude.{
  is_empty, ℕ, zero, suc, ◌+◌, ◌-◌, Bool, true, false, ◌&&◌, ◌||◌, not, Option, none, some, List,
  [], ◌∷◌, ◌++◌, Text, codes, bytes_eq, encode, length, get_or, take_last, leb, ◌==◌, if◌then◌else◌,
}
use zabawheels.Pty.Terminal.{Terminal, EscState, plain, esc, csi, ss3, emit}

-- The argument -1 or +1 of `_history_step`.
pub data Direction : Type 0 where
  back forward : Direction

-- `HISTORY_LIMIT`
abbrev pub history_limit : ℕ
history_limit = 500

-- `_replace_line`
unfoldable pub replace_line : Text → Terminal → Terminal
replace_line text t = emit (13 ∷ 0x1b ∷ codes "[K" ++ encode text) (record t { line_buffer = text })

-- Python's -1, from index 0, is cut to 0 by `max`, as the subtraction on ℕ does.
abbrev pub moved : Direction → ℕ → ℕ
moved back index = index - 1
moved forward index = index + 1

-- The end of `_history_step`: the index that the step starts from is known.
unfoldable pub step_from : ℕ → Direction → Terminal → Terminal
step_from index direction t =
    let new_index = moved direction index in
    if leb (length t.history) new_index
    then replace_line t.history_stash (record t { history_index = none })
    else replace_line (get_or t.history new_index []) (record t { history_index = some new_index })

-- `_history_step`, on the current index.
unfoldable pub step_at : Option ℕ → Direction → Terminal → Terminal
step_at none forward t = t
step_at none back t = step_from (length t.history) back (record t { history_stash = t.line_buffer })
step_at (some index) direction t = step_from index direction t

-- `_history_step`
unfoldable pub history_step : Direction → Terminal → Terminal
history_step direction t =
    if t.busy || is_empty t.history then t else step_at t.history_index direction t

abbrev ends_in : Text → List Text → Bool
ends_in line [] = false
ends_in line (x ∷ []) = bytes_eq x line
ends_in line (x ∷ y ∷ xs) = ends_in line (y ∷ xs)

-- The history that `_history_record` leaves.
unfoldable pub recorded : Text → List Text → List Text
recorded line history =
    if not (is_empty line) && not (ends_in line history)
    then take_last history_limit (history ++ line ∷ [])
    else history

-- `_history_record`
unfoldable pub history_record : Text → Terminal → Terminal
history_record line t = record t { history = recorded line t.history; history_index = none }

-- `"A"` steps back, `"B"` steps forward, any other final byte does nothing.
unfoldable pub arrow : ℕ → Terminal → Terminal
arrow char t =
    if char == b'A' then history_step back t else if char == b'B' then history_step forward t else t

-- The state after the byte behind an escape.
unfoldable pub after_esc : ℕ → EscState
after_esc char = if char == b'[' then csi else if char == b'O' then ss3 else plain

-- `_handle_escape_char`. In the state `plain` it is called for an escape only.
unfoldable pub handle_escape_in : EscState → ℕ → Terminal → Terminal
handle_escape_in plain char t = record t { esc_state = esc }
handle_escape_in esc char t = record t { esc_state = after_esc char }
handle_escape_in ss3 char t = record (arrow char t) { esc_state = plain }
handle_escape_in csi char t =
    if leb 0x40 char && leb char 0x7e then record (arrow char t) { esc_state = plain } else t

abbrev pub handle_escape_char : ℕ → Terminal → Terminal
handle_escape_char char t = handle_escape_in t.esc_state char t
