-- ===== src/Pty/Faithful.antt =====
-- That the methods around the line editor and the Alpine shell keep the scrollback faithful.
pub mod Keys
pub mod Worker
pub mod Events
use zabawheels.Prelude.{
  ℕ, ◌-◌, ◌+◌, ◌≡◌, refl, sym, ◌∙◌, ap, Bool, true, false, not, ◌&&◌, ◌||◌, Option, none, some,
  List, [], ◌∷◌, ◌++◌, append-nil, Bytes, Text, codes, bytes_eq, strip, one_of, encode, length,
  take_last, leb, ◌==◌, get_or, if◌then◌else◌, if-elim,
}
use zabawheels.Pty.Terminal.{
  scrollback_max_size, Mode, shell, repl, EscState, plain, esc, csi, ss3, Effect, pty_spawn,
  pty_write, pty_kill, shell_interrupt, inject_keyboard_interrupt, Terminal, act, emit, emit_prompt,
  emit_setup_prompt,
}
use zabawheels.Pty.Terminal.Scrollback.{
  shown, IsQuiet, IsFaithful, shown-append, act-IsFaithful, emit-IsFaithful, emit_prompt-IsFaithful,
  emit_setup_prompt-IsFaithful,
}
use zabawheels.Pty.Editor.{
  Direction, back, forward, moved, replace_line, step_from, step_at, history_step, history_record,
  arrow, handle_escape_in, handle_escape_char,
}
use zabawheels.Pty.Session.{
  Host, enter_repl, leave_repl, report_error, spawn_pty, launch_pty, enter_linux_pty, pty_exited,
  kill_pty, leave_linux_pty, toggle_pty, submit_at_gate, submit_command, submit_line,
  interrupt_running, end_of_input, rub_out, enter_line, type_char, handle_key, handle_char,
  handle_chars, route_input, write_input,
}

-- A state with the same effects and the same scrollback.
pub keep-IsFaithful :
    {t u : Terminal}
    → u.effects ≡ t.effects
    → u.scrollback_buffer ≡ t.scrollback_buffer
    → IsFaithful t
    → IsFaithful u
keep-IsFaithful e b f = record {
  holds = b ∙ f.holds ∙ ap (λ es. take_last scrollback_max_size (shown es)) (sym e);
}

pub emits : (bytes : Bytes) {t : Terminal} → IsFaithful t → IsFaithful (emit bytes t)
emits bytes f = (emit-IsFaithful bytes f).0

-- An effect that is not output shows nothing.
pub IsSilent : (e : Effect) → shown (e ∷ []) ≡ [] → IsQuiet e
IsSilent e silent es =
    shown-append es (e ∷ []) ∙ ap (λ u. shown es ++ u) silent ∙ append-nil (shown es)

replace_line-IsFaithful :
    (text : Text) {t : Terminal} → IsFaithful t → IsFaithful (replace_line text t)
unfolding replace_line
replace_line-IsFaithful text f = emits _ (keep-IsFaithful refl refl f)

step_from-IsFaithful :
    (index : ℕ) (d : Direction) {t : Terminal} → IsFaithful t → IsFaithful (step_from index d t)
unfolding step_from
step_from-IsFaithful index d {t} f =
    if-elim IsFaithful (leb (length t.history) (moved d index))
      (replace_line-IsFaithful _ (keep-IsFaithful refl refl f))
      (replace_line-IsFaithful _ (keep-IsFaithful refl refl f))

step_at-IsFaithful :
    (o : Option ℕ) (d : Direction) {t : Terminal} → IsFaithful t → IsFaithful (step_at o d t)
unfolding step_at
step_at-IsFaithful none forward f = f
step_at-IsFaithful none back f = step_from-IsFaithful _ back (keep-IsFaithful refl refl f)
step_at-IsFaithful (some index) d f = step_from-IsFaithful index d f

history_step-IsFaithful :
    (d : Direction) {t : Terminal} → IsFaithful t → IsFaithful (history_step d t)
unfolding history_step
history_step-IsFaithful d {t} f = if-elim IsFaithful _ f (step_at-IsFaithful t.history_index d f)

arrow-IsFaithful : (char : ℕ) {t : Terminal} → IsFaithful t → IsFaithful (arrow char t)
unfolding arrow
arrow-IsFaithful char f =
    if-elim IsFaithful (char == b'A') (history_step-IsFaithful back f)
      (if-elim IsFaithful (char == b'B') (history_step-IsFaithful forward f) f)

pub handle_escape_in-IsFaithful :
    (s : EscState) (char : ℕ) {t : Terminal} → IsFaithful t → IsFaithful (handle_escape_in s char t)
unfolding handle_escape_in
handle_escape_in-IsFaithful plain char f = keep-IsFaithful refl refl f
handle_escape_in-IsFaithful esc char f = keep-IsFaithful refl refl f
handle_escape_in-IsFaithful ss3 char f = keep-IsFaithful refl refl (arrow-IsFaithful char f)
handle_escape_in-IsFaithful csi char f =
    if-elim IsFaithful (leb 0x40 char && leb char 0x7e)
      (keep-IsFaithful refl refl (arrow-IsFaithful char f)) f

pub enter_repl-IsFaithful :
    (host : Host) {t : Terminal} → IsFaithful t → IsFaithful (enter_repl host t)
unfolding enter_repl
enter_repl-IsFaithful host f = emit_prompt-IsFaithful (emits _ (keep-IsFaithful refl refl f))

pub leave_repl-IsFaithful : {t : Terminal} → IsFaithful t → IsFaithful (leave_repl t)
unfolding leave_repl
leave_repl-IsFaithful f = emit_prompt-IsFaithful (keep-IsFaithful refl refl f)

report_error-IsFaithful :
    (message : Text) {t : Terminal} → IsFaithful t → IsFaithful (report_error message t)
unfolding report_error
report_error-IsFaithful message f = emit_prompt-IsFaithful (emits _ f)

spawn_pty-IsFaithful : (o : Option Text) {t : Terminal} → IsFaithful t → IsFaithful (spawn_pty o t)
unfolding spawn_pty shown
spawn_pty-IsFaithful (some message) f = report_error-IsFaithful message f
spawn_pty-IsFaithful none f = act-IsFaithful _ (IsSilent _ refl) (keep-IsFaithful refl refl f)

launch_pty-IsFaithful :
    (host : Host) (o : Option Text) {t : Terminal} → IsFaithful t → IsFaithful (launch_pty host o t)
unfolding launch_pty
launch_pty-IsFaithful host (some message) f = report_error-IsFaithful message f
launch_pty-IsFaithful host none f =
    spawn_pty-IsFaithful host.spawn_error (emits _ (keep-IsFaithful refl refl f))

pub enter_linux_pty-IsFaithful :
    (host : Host) {t : Terminal} → IsFaithful t → IsFaithful (enter_linux_pty host t)
unfolding enter_linux_pty
enter_linux_pty-IsFaithful host f = if-elim IsFaithful _ f (
    if-elim IsFaithful (not host.installed) (emit_prompt-IsFaithful (emits _ f))
      (launch_pty-IsFaithful host host.argv_error f))

pub pty_exited-IsFaithful :
    (host : Host) (p : ℕ) (code : Text) {t : Terminal}
    → IsFaithful t
    → IsFaithful (pty_exited host p code t)
unfolding pty_exited
pty_exited-IsFaithful host p code {t} f =
    let shut = emits _ (keep-IsFaithful refl refl f) in
    if-elim IsFaithful _ (if-elim IsFaithful _ (enter_linux_pty-IsFaithful host shut) shut) f

pub kill_pty-IsFaithful : (o : Option ℕ) {t : Terminal} → IsFaithful t → IsFaithful (kill_pty o t)
unfolding kill_pty shown
kill_pty-IsFaithful none f = f
kill_pty-IsFaithful (some p) f = act-IsFaithful _ (IsSilent _ refl) f

leave_linux_pty-IsFaithful : {t : Terminal} → IsFaithful t → IsFaithful (leave_linux_pty t)
unfolding leave_linux_pty
leave_linux_pty-IsFaithful {t} f =
    emit_prompt-IsFaithful (emits _ (kill_pty-IsFaithful t.pty (keep-IsFaithful refl refl f)))

pub toggle_pty-IsFaithful :
    (host : Host) {t : Terminal} → IsFaithful t → IsFaithful (toggle_pty host t)
unfolding toggle_pty
toggle_pty-IsFaithful host {t} f =
    if-elim IsFaithful t.is_running
      (if-elim IsFaithful _ (leave_linux_pty-IsFaithful f) (enter_linux_pty-IsFaithful host f)) f
