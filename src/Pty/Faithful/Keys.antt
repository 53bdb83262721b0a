-- ===== src/Pty/Faithful/Keys.antt =====
-- That keyboard input keeps the scrollback faithful.
use zabawheels.Prelude.{
  ℕ, refl, Option, none, some, [], ◌∷◌, ◌++◌, Bytes, Text, codes, bytes_eq, strip, if-elim,
}
use zabawheels.Pty.Terminal.{Terminal, shell_interrupt, inject_keyboard_interrupt}
use zabawheels.Pty.Terminal.Scrollback.{
  shown, IsFaithful, act-IsFaithful, emit_prompt-IsFaithful, emit_setup_prompt-IsFaithful,
}
use zabawheels.Pty.Editor.{history_record}
use zabawheels.Pty.Session.{
  Host, submit_at_gate, submit_command, submit_line, interrupt_running, end_of_input, rub_out,
  enter_line, type_char, handle_key, handle_char, handle_chars, route_input, write_input,
}
use zabawheels.Pty.Faithful.{
  keep-IsFaithful, emits, IsSilent, handle_escape_in-IsFaithful, enter_repl-IsFaithful,
  leave_repl-IsFaithful, enter_linux_pty-IsFaithful,
}

submit_at_gate-IsFaithful :
    (stripped line : Text) {t : Terminal}
    → IsFaithful t
    → IsFaithful (submit_at_gate stripped line t)
unfolding submit_at_gate
submit_at_gate-IsFaithful stripped line {t} f =
    if-elim IsFaithful (bytes_eq stripped (codes "linux-setup")) (keep-IsFaithful refl refl f)
      (emit_setup_prompt-IsFaithful (emits _ f))

submit_command-IsFaithful :
    (host : Host) (stripped line : Text) {t : Terminal}
    → IsFaithful t
    → IsFaithful (submit_command host stripped line t)
unfolding submit_command
submit_command-IsFaithful host stripped line {t} f =
    let queued : IsFaithful
        (record t { command_queue = t.command_queue ++ some (line, t.mode) ∷ [] }) =
      keep-IsFaithful refl refl f in
    if-elim IsFaithful t.awaiting_alpine (submit_at_gate-IsFaithful stripped line f) (
      if-elim IsFaithful _ (enter_repl-IsFaithful host f) (
        if-elim IsFaithful _ (enter_linux_pty-IsFaithful host f)
          (if-elim IsFaithful _ (leave_repl-IsFaithful f) queued)))

pub submit_line-IsFaithful :
    (host : Host) (line : Text) {t : Terminal} → IsFaithful t → IsFaithful (submit_line host line t)
unfolding submit_line history_record
submit_line-IsFaithful host line {t} f =
    let queued : IsFaithful
        (record t { command_queue = t.command_queue ++ some (line, t.mode) ∷ [] }) =
      keep-IsFaithful refl refl f in
    let typed_ahead : IsFaithful (record t { stdin_queue = t.stdin_queue ++ line ∷ [] }) =
      keep-IsFaithful refl refl f in
    if-elim IsFaithful t.busy typed_ahead (
      if-elim IsFaithful _ (if-elim IsFaithful _ (emit_prompt-IsFaithful f) queued)
        (submit_command-IsFaithful host (strip line) line (keep-IsFaithful refl refl f)))

interrupt_running-IsFaithful :
    (host : Host) {t : Terminal} → IsFaithful t → IsFaithful (interrupt_running host t)
unfolding interrupt_running shown
interrupt_running-IsFaithful host {t} f =
    let u =
      emits (codes "^C\r\n")
        (keep-IsFaithful {u = record t { line_buffer = []; python_lines = [] }} refl refl f) in
    let v = act-IsFaithful shell_interrupt (IsSilent _ refl) (keep-IsFaithful refl refl u) in
    if-elim IsFaithful _
      (if-elim IsFaithful host.has_running_processes v
        (act-IsFaithful inject_keyboard_interrupt (IsSilent _ refl) v))
      (emit_prompt-IsFaithful u)

end_of_input-IsFaithful : {t : Terminal} → IsFaithful t → IsFaithful (end_of_input t)
unfolding end_of_input
end_of_input-IsFaithful f = if-elim IsFaithful _ (leave_repl-IsFaithful f) f

rub_out-IsFaithful : {t : Terminal} → IsFaithful t → IsFaithful (rub_out t)
unfolding rub_out
rub_out-IsFaithful f = if-elim IsFaithful _ f (emits _ (keep-IsFaithful refl refl f))

enter_line-IsFaithful : (host : Host) {t : Terminal} → IsFaithful t → IsFaithful (enter_line host t)
unfolding enter_line
enter_line-IsFaithful host {t} f =
    keep-IsFaithful refl refl (submit_line-IsFaithful host t.line_buffer (emits _ f))

type_char-IsFaithful : (char : ℕ) {t : Terminal} → IsFaithful t → IsFaithful (type_char char t)
unfolding type_char
type_char-IsFaithful char f = emits _ (keep-IsFaithful refl refl f)

handle_key-IsFaithful :
    (host : Host) (char : ℕ) {t : Terminal} → IsFaithful t → IsFaithful (handle_key host char t)
unfolding handle_key
handle_key-IsFaithful host char f = if-elim IsFaithful _ (interrupt_running-IsFaithful host f) (
    if-elim IsFaithful _ (end_of_input-IsFaithful f) (
      if-elim IsFaithful _ (rub_out-IsFaithful f) (
        if-elim IsFaithful _ (enter_line-IsFaithful host f)
          (if-elim IsFaithful _ (type_char-IsFaithful char f) f))))

handle_char-IsFaithful :
    (host : Host) (char : ℕ) {t : Terminal} → IsFaithful t → IsFaithful (handle_char host char t)
unfolding handle_char
handle_char-IsFaithful host char {t} f =
    if-elim IsFaithful _ (handle_escape_in-IsFaithful t.esc_state char f)
      (handle_key-IsFaithful host char f)

handle_chars-IsFaithful :
    (host : Host) (text : Text) {t : Terminal}
    → IsFaithful t
    → IsFaithful (handle_chars host text t)
unfolding handle_chars
handle_chars-IsFaithful host [] f = f
handle_chars-IsFaithful host (c ∷ text) f =
    handle_chars-IsFaithful host text (handle_char-IsFaithful host c f)

route_input-IsFaithful :
    (host : Host) (decode : Bytes → Text) (bytes : Bytes) (o : Option ℕ) {t : Terminal}
    → IsFaithful t
    → IsFaithful (route_input host decode bytes o t)
unfolding route_input shown
route_input-IsFaithful host decode bytes (some p) f = act-IsFaithful _ (IsSilent _ refl) f
route_input-IsFaithful host decode bytes none f = handle_chars-IsFaithful host (decode bytes) f

pub write_input-IsFaithful :
    (host : Host) (decode : Bytes → Text) (bytes : Bytes) {t : Terminal}
    → IsFaithful t
    → IsFaithful (write_input host decode bytes t)
unfolding write_input
write_input-IsFaithful host decode bytes {t} f =
    if-elim IsFaithful t.is_running (route_input-IsFaithful host decode bytes t.pty f) f
