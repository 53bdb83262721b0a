-- ===== src/Pty/Faithful/Worker.antt =====
-- That start, stop, resize and the steps around a command keep the scrollback faithful.
use zabawheels.Prelude.Int.{ℤ, is_positive, pos_part}
use zabawheels.Prelude.{
  ℕ, refl, true, false, Option, none, some, List, [], ◌∷◌, Bytes, Text, if◌then◌else◌, if-elim,
}
use zabawheels.Pty.Terminal.{Terminal, pty_resize, shell_interrupt}
use zabawheels.Pty.Terminal.Scrollback.{
  shown, IsFaithful, act-IsFaithful, emit_prompt-IsFaithful, emit_setup_prompt-IsFaithful,
}
use zabawheels.Pty.Session.{Host, auto_start_alpine}
use zabawheels.Pty.Worker.{
  emit_all, start, stop, resize_child, resize, emit_pending, render_result, submit_lines,
  finish_command,
}
use zabawheels.Pty.Faithful.{
  keep-IsFaithful, emits, IsSilent, enter_linux_pty-IsFaithful, kill_pty-IsFaithful,
}
use zabawheels.Pty.Faithful.Keys.{submit_line-IsFaithful}

emit_all-IsFaithful :
    (chunks : List Bytes) {t : Terminal} → IsFaithful t → IsFaithful (emit_all chunks t)
unfolding emit_all
emit_all-IsFaithful [] f = f
emit_all-IsFaithful (b ∷ chunks) f = emit_all-IsFaithful chunks (emits b f)

pub start-IsFaithful : (host : Host) {t : Terminal} → IsFaithful t → IsFaithful (start host t)
unfolding start
start-IsFaithful host {t} f =
    let u =
      emit_all-IsFaithful host.rc_output
        (keep-IsFaithful {u = record t { is_running = true }} refl refl f) in
    if-elim IsFaithful t.is_running f (
      if-elim IsFaithful _ (enter_linux_pty-IsFaithful host u) (
        if-elim IsFaithful host.setup_gate_enabled
          (emit_setup_prompt-IsFaithful (emits _ (keep-IsFaithful refl refl u)))
          (emit_prompt-IsFaithful u)))

pub stop-IsFaithful : {t : Terminal} → IsFaithful t → IsFaithful (stop t)
unfolding stop shown
stop-IsFaithful {t} f =
    act-IsFaithful shell_interrupt (IsSilent _ refl)
      (keep-IsFaithful refl refl (kill_pty-IsFaithful t.pty (keep-IsFaithful refl refl f)))

resize_child-IsFaithful :
    (columns : ℤ) (o : Option ℕ) {t : Terminal}
    → IsFaithful t
    → IsFaithful (resize_child columns o t)
unfolding resize_child shown
resize_child-IsFaithful columns (some p) {t} f =
    act-IsFaithful (pty_resize p t.rows t.cols) (IsSilent _ refl) f
resize_child-IsFaithful columns none {t} f =
    if-elim IsFaithful (is_positive columns) (keep-IsFaithful refl refl f) f

pub resize-IsFaithful :
    (columns lines : ℤ) {t : Terminal} → IsFaithful t → IsFaithful (resize columns lines t)
unfolding resize
resize-IsFaithful columns lines {t} f =
    let u = if is_positive columns then record t { cols = pos_part columns } else t in
    let v = if is_positive lines then record u { rows = pos_part lines } else u in
    let fu : IsFaithful u =
      if-elim IsFaithful (is_positive columns) (keep-IsFaithful refl refl f) f in
    let fv : IsFaithful v =
      if-elim IsFaithful (is_positive lines) (keep-IsFaithful refl refl fu) fu in
    resize_child-IsFaithful columns v.pty fv

emit_pending-IsFaithful :
    (pending : Bytes) {t : Terminal} → IsFaithful t → IsFaithful (emit_pending pending t)
unfolding emit_pending
emit_pending-IsFaithful [] f = f
emit_pending-IsFaithful (b ∷ pending) f = emits (b ∷ pending) f

pub render_result-IsFaithful :
    (host : Host) (pending : Bytes) {t : Terminal}
    → IsFaithful t
    → IsFaithful (render_result host pending t)
unfolding render_result
render_result-IsFaithful host pending {t} f =
    let u = emit_pending pending t in
    let fu = emit_pending-IsFaithful pending f in
    let opens : IsFaithful
        (record u { awaiting_alpine = false; start_alpine_after_command = true }) =
      keep-IsFaithful refl refl fu in
    if-elim IsFaithful u.awaiting_alpine
      (if-elim IsFaithful (auto_start_alpine host) opens (emit_setup_prompt-IsFaithful fu))
      (emit_prompt-IsFaithful fu)

submit_lines-IsFaithful :
    (host : Host) (lines : List Text) {t : Terminal}
    → IsFaithful t
    → IsFaithful (submit_lines host lines t)
unfolding submit_lines
submit_lines-IsFaithful host [] f = f
submit_lines-IsFaithful host (line ∷ lines) f =
    submit_lines-IsFaithful host lines (submit_line-IsFaithful host line f)

pub finish_command-IsFaithful :
    (host : Host) {t : Terminal} → IsFaithful t → IsFaithful (finish_command host t)
unfolding finish_command
finish_command-IsFaithful host {t} f =
    let discarded : IsFaithful (record t { busy = false; stdin_queue = []; interrupted = false }) =
      keep-IsFaithful refl refl f in
    if-elim IsFaithful t.interrupted discarded (
      if-elim IsFaithful t.start_alpine_after_command
        (enter_linux_pty-IsFaithful host (keep-IsFaithful refl refl f))
        (submit_lines-IsFaithful host t.stdin_queue (keep-IsFaithful refl refl f)))
