-- ===== src/Pty/Session.antt =====
-- The operations of `PTYTerminalSession`: submitted lines, the keyboard, the Alpine PTY, the worker
-- and the session's start and end. `Host` is what the session asks of the rest of the app.
pub mod Gate
pub mod Exit
use zabawheels.Prelude.{
  is_empty, ℕ, ◌+◌, Bool, true, false, ◌&&◌, ◌||◌, not, Option, none, some, List, [], ◌∷◌, ◌++◌,
  Bytes, Text, codes, encode, strip, one_of, bytes_eq, leb, ◌==◌, if◌then◌else◌,
}
use zabawheels.Pty.Terminal.{
  Terminal, Mode, shell, repl, EscState, plain, pty_spawn, pty_write, pty_kill, shell_interrupt,
  inject_keyboard_interrupt, act, emit, emit_prompt, emit_setup_prompt,
}
use zabawheels.Pty.Editor.{history_record, handle_escape_char, handle_escape_in}

-- The answers of zmux.linuxenv, of `RealPtyProcess` and of the shell at the time of a call: whether
-- the rootfs and the proot binary are there, the message of a `RuntimeError` in building the command
-- line or in opening the PTY, whether a pipeline runs, and what the rc hook printed.
pub record Host : Type 0 where
  pub installed : Bool
  pub has_proot : Bool
  pub argv_error : Option Text
  pub spawn_error : Option Text
  pub has_running_processes : Bool
  pub python_version : Text
  pub setup_gate_enabled : Bool
  pub rc_output : List Bytes

-- `_enter_repl`
unfoldable pub enter_repl : Host → Terminal → Terminal
enter_repl host t = emit_prompt (
    emit
      (encode (
        codes "Python "
        ++ (host.python_version
            ++ codes
                " (embedded ZMUX runtime)\r\nType \"exit()\" or Ctrl+D to return to the shell\r\n")))
      (record t { mode = repl }))

-- `_leave_repl`
unfoldable pub leave_repl : Terminal → Terminal
leave_repl t = emit_prompt (record t { mode = shell; python_lines = [] })

-- `_auto_start_alpine`
abbrev pub auto_start_alpine : Host → Bool
auto_start_alpine host = host.installed && host.has_proot

-- How `_enter_linux_pty` reports a `RuntimeError`.
unfoldable pub report_error : Text → Terminal → Terminal
report_error message t = emit_prompt (emit (encode (codes "zmux: " ++ (message ++ codes "\r\n"))) t)

abbrev pub not_installed_message : Bytes
not_installed_message =
    codes
      "zmux: Alpine environment is not installed.\r\n  Run `linux-setup` once (downloads ~4 MiB, SHA-512 verified),\r\n  then `linux` opens the real Alpine shell.\r\n"

-- `RealPtyProcess(…)`: the new process has the next number.
unfoldable pub spawn_pty : Option Text → Terminal → Terminal
spawn_pty (some message) t = report_error message t
spawn_pty none t =
    act (pty_spawn t.spawned) (record t { pty = some t.spawned; spawned = t.spawned + 1 })

abbrev pub banner : Bytes
banner = codes "\r\n[ZMUX Alpine Linux - real PTY]\r\n"

unfoldable pub launch_pty : Host → Option Text → Terminal → Terminal
launch_pty host (some message) t = report_error message t
launch_pty host none t = spawn_pty host.spawn_error (emit banner (record t { mode = shell }))

abbrev pub has_pty : Option ℕ → Bool
has_pty none = false
has_pty (some p) = true

-- `_enter_linux_pty`
unfoldable pub enter_linux_pty : Host → Terminal → Terminal
enter_linux_pty host t =
    if not t.is_running || has_pty t.pty || t.busy
    then t
    else if not host.installed
    then emit_prompt (emit not_installed_message t)
    else launch_pty host host.argv_error t

-- `self.pty is pty`
abbrev pub is_pty : Option ℕ → ℕ → Bool
is_pty none p = false
is_pty (some q) p = q == p

abbrev pub exit_message : Text → Bytes
exit_message code = encode (codes "\r\n[Alpine shell exited (code " ++ (code ++ codes ")]\r\n"))

-- `_pty_exited`: the process and the text of its exit code.
unfoldable pub pty_exited : Host → ℕ → Text → Terminal → Terminal
pty_exited host p code t =
    let u = emit (exit_message code) (record t { pty = none }) in
    if is_pty t.pty p
    then if u.is_running && auto_start_alpine host then enter_linux_pty host u else u
    else t

unfoldable pub kill_pty : Option ℕ → Terminal → Terminal
kill_pty none t = t
kill_pty (some p) t = act (pty_kill p) t

-- `_leave_linux_pty("detach")`
unfoldable pub leave_linux_pty : Terminal → Terminal
leave_linux_pty t = emit_prompt (
    emit (codes "\r\n[detached from Alpine shell - ZMUX host console]\r\n")
      (kill_pty t.pty (record t { pty = none })))

-- `toggle_pty`
unfoldable pub toggle_pty : Host → Terminal → Terminal
toggle_pty host t =
    if t.is_running then if has_pty t.pty then leave_linux_pty t else enter_linux_pty host t else t

abbrev queue_command : Text → Mode → Terminal → Terminal
queue_command line mode t = record t { command_queue = t.command_queue ++ some (line, mode) ∷ [] }

abbrev is_repl : Mode → Bool
is_repl repl = true
is_repl shell = false

-- `_submit_line` while the setup gate is closed: the line's text, and the line as typed.
unfoldable pub submit_at_gate : Text → Text → Terminal → Terminal
submit_at_gate stripped line t =
    if bytes_eq stripped (codes "linux-setup")
    then queue_command line shell t
    else emit_setup_prompt
        (emit (codes "Only `linux-setup` is available until Alpine is ready.\r\n") t)

-- The rest of `_submit_line`, for a line that is not blank and with no command running.
unfoldable pub submit_command : Host → Text → Text → Terminal → Terminal
submit_command host stripped line t =
    if t.awaiting_alpine
    then submit_at_gate stripped line t
    else if not (is_repl t.mode) && one_of ("python" ∷ "python3" ∷ []) stripped
    then enter_repl host t
    else if not (is_repl t.mode) && not t.busy && one_of ("linux" ∷ "alpine" ∷ []) stripped
    then enter_linux_pty host t
    else if is_repl t.mode && one_of ("exit" ∷ "quit" ∷ "exit()" ∷ "quit()" ∷ []) stripped
    then leave_repl t
    else queue_command line t.mode t

-- `_submit_line`
unfoldable pub submit_line : Host → Text → Terminal → Terminal
submit_line host line t =
    let stripped = strip line in
    if t.busy
    then record t { stdin_queue = t.stdin_queue ++ line ∷ [] }
    else if is_empty stripped
    then if is_empty t.python_lines then emit_prompt t else queue_command line t.mode t
    else submit_command host stripped line (history_record stripped t)

-- `PythonShell.interrupt`, as far as the session sees it.
abbrev interrupt_shell : Terminal → Terminal
interrupt_shell t =
    act shell_interrupt (record t { interrupted = true; interrupt_epoch = t.interrupt_epoch + 1 })

-- `_interrupt_running`
unfoldable pub interrupt_running : Host → Terminal → Terminal
interrupt_running host t =
    let u = emit (codes "^C\r\n") (record t { line_buffer = []; python_lines = [] }) in
    if u.busy
    then if host.has_running_processes
      then interrupt_shell u
      else act inject_keyboard_interrupt (interrupt_shell u)
    else emit_prompt u

-- `line[:-1]`
unfoldable pub but_last : Text → Text
but_last [] = []
but_last (c ∷ []) = []
but_last (c ∷ d ∷ s) = c ∷ but_last (d ∷ s)

abbrev is_plain : EscState → Bool
is_plain plain = true
is_plain s = false

-- Ctrl+D
unfoldable pub end_of_input : Terminal → Terminal
end_of_input t = if is_repl t.mode && is_empty t.line_buffer && not t.busy then leave_repl t else t

-- Backspace
unfoldable pub rub_out : Terminal → Terminal
rub_out t =
    if is_empty t.line_buffer
    then t
    else emit (8 ∷ 32 ∷ 8 ∷ []) (record t { line_buffer = but_last t.line_buffer })

-- Enter
unfoldable pub enter_line : Host → Terminal → Terminal
enter_line host t = record (submit_line host t.line_buffer (emit (13 ∷ 10 ∷ []) t)) {
  line_buffer = [];
}

-- A character of the line
unfoldable pub type_char : ℕ → Terminal → Terminal
type_char char t = emit (encode (char ∷ [])) (record t { line_buffer = t.line_buffer ++ char ∷ [] })

-- The ladder of `_handle_char` outside an escape sequence.
unfoldable pub handle_key : Host → ℕ → Terminal → Terminal
handle_key host char t =
    if char == 3
    then interrupt_running host t
    else if char == 4
    then end_of_input t
    else if char == 0x7f || char == 8
    then rub_out t
    else if char == 13 || char == 10
    then enter_line host t
    else if leb 32 char
    then type_char char t
    else t

-- `_handle_char`
unfoldable pub handle_char : Host → ℕ → Terminal → Terminal
handle_char host char t =
    if not (is_plain t.esc_state) || char == 0x1b
    then handle_escape_char char t
    else handle_key host char t

-- `for char in text`
unfoldable pub handle_chars : Host → Text → Terminal → Terminal
handle_chars host [] t = t
handle_chars host (c ∷ text) t = handle_chars host text (handle_char host c t)

unfoldable pub route_input : Host → (Bytes → Text) → Bytes → Option ℕ → Terminal → Terminal
route_input host decode bytes (some p) t = act (pty_write p bytes) t
route_input host decode bytes none t = handle_chars host (decode bytes) t

-- `write_input`; `decode` is `bytes.decode("utf-8", errors="replace")`.
unfoldable pub write_input : Host → (Bytes → Text) → Bytes → Terminal → Terminal
write_input host decode bytes t = if t.is_running then route_input host decode bytes t.pty t else t
