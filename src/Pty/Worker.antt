-- ===== src/Pty/Worker.antt =====
-- The start and end of a session, its geometry, and the steps of the worker that runs the queued
-- lines (`start`, `stop`, `resize`, `_exec_loop`, `_execute_and_render`, `_finish_command`).
pub mod Drained
use zabawheels.Prelude.Int.{ℤ, is_positive, pos_part}
use zabawheels.Prelude.{
  ℕ, ◌+◌, max, true, false, Option, none, some, List, [], ◌∷◌, ◌++◌, Bytes, Text, codes,
  if◌then◌else◌,
}
use zabawheels.Pty.Terminal.{
  Terminal, Mode, Command, pty_resize, shell_interrupt, act, emit, emit_prompt, emit_setup_prompt,
}
use zabawheels.Pty.Session.{Host, auto_start_alpine, enter_linux_pty, kill_pty, submit_line}

-- `_run_rc`: what the rc lines print, one chunk for each line that prints.
unfoldable pub emit_all : List Bytes → Terminal → Terminal
emit_all [] t = t
emit_all (b ∷ bs) t = emit_all bs (emit b t)

abbrev setup_message : Bytes
setup_message =
    codes
      "ZMUX needs its Alpine Linux environment before a terminal can open.\r\nType `linux-setup` to download and verify Alpine, then ZMUX opens it automatically.\r\n"

-- `start`
unfoldable pub start : Host → Terminal → Terminal
start host t =
    let u = emit_all host.rc_output (record t { is_running = true }) in
    if t.is_running
    then t
    else if auto_start_alpine host
    then enter_linux_pty host u
    else if host.setup_gate_enabled
    then emit_setup_prompt (emit setup_message (record u { awaiting_alpine = true }))
    else emit_prompt u

-- `stop`
unfoldable pub stop : Terminal → Terminal
stop t =
    let u =
      kill_pty t.pty
        (record t { is_running = false; line_buffer = []; python_lines = []; pty = none }) in
    act shell_interrupt (record u {
      interrupted = true;
      interrupt_epoch = u.interrupt_epoch + 1;
      command_queue = u.command_queue ++ none ∷ [];
    })

unfoldable pub resize_child : ℤ → Option ℕ → Terminal → Terminal
resize_child columns (some p) t = act (pty_resize p t.rows t.cols) t
resize_child columns none t =
    if is_positive columns then record t { shell_width = max 20 (pos_part columns) } else t

-- `resize`
unfoldable pub resize : ℤ → ℤ → Terminal → Terminal
resize columns lines t =
    let u = if is_positive columns then record t { cols = pos_part columns } else t in
    let v = if is_positive lines then record u { rows = pos_part lines } else u in
    resize_child columns v.pty v

-- What the worker does with the next item of its queue: it ends, or it runs a line in a mode.
pub data Taken : Type 0 where
  ended : Terminal → Taken
  running : Text → Mode → Terminal → Taken

-- `_exec_loop` up to `_run_line`. Nothing comes between the snapshot of the epoch and the clear, so
-- the interrupt flag is cleared.
unfoldable pub take_command : Command → List Command → Terminal → Taken
take_command none rest t = ended (record t { command_queue = rest })
take_command (some (line, mode)) rest t =
    if t.is_running
    then running line mode (record t { command_queue = rest; busy = true; interrupted = false })
    else ended (record t { command_queue = rest })

-- `if pending`
unfoldable pub emit_pending : Bytes → Terminal → Terminal
emit_pending [] t = t
emit_pending (b ∷ pending) t = emit (b ∷ pending) t

-- The end of `_execute_and_render`, from the text that no sink has shown yet, as terminal bytes.
unfoldable pub render_result : Host → Bytes → Terminal → Terminal
render_result host pending t =
    let u = emit_pending pending t in
    if u.awaiting_alpine
    then if auto_start_alpine host
      then record u { awaiting_alpine = false; start_alpine_after_command = true }
      else emit_setup_prompt u
    else emit_prompt u

-- `for leftover in …: self._submit_line(leftover)`
unfoldable pub submit_lines : Host → List Text → Terminal → Terminal
submit_lines host [] t = t
submit_lines host (line ∷ lines) t = submit_lines host lines (submit_line host line t)

-- `_finish_command`
unfoldable pub finish_command : Host → Terminal → Terminal
finish_command host t =
    if t.interrupted
    then record t { busy = false; stdin_queue = []; interrupted = false }
    else if t.start_alpine_after_command
    then enter_linux_pty host (record t { busy = false; start_alpine_after_command = false })
    else submit_lines host t.stdin_queue (record t { busy = false; stdin_queue = [] })
