-- ===== src/Pty/Session/Gate.antt =====
-- The setup gate: before Alpine is installed, the keyboard can run `linux-setup` and nothing else.
use zabawheels.Prelude.{
  ℕ, ◌≡◌, refl, sym, ap, subst, ◌∙◌, Bool, not, ◌||◌, encode, true, ◌&&◌, Option, none, some, List,
  [], ◌∷◌, ◌++◌, Bytes, Text, codes, strip, bytes_eq, length, if-elim, if-elim_eq, ◌==◌, leb,
}
use zabawheels.Pty.Terminal.{
  Terminal, Mode, shell, Command, plain, esc, csi, ss3, EscState, emit, emit_prompt,
}
use zabawheels.Pty.Terminal.Fields.{
  SameInput, emit-SameInput, emit_prompt-SameInput, emit_setup_prompt-SameInput,
}
use zabawheels.Pty.Editor.{
  Direction, back, forward, replace_line, step_from, step_at, history_step, history_record, arrow,
  handle_escape_in,
}
use zabawheels.Pty.Session.{
  Host, submit_at_gate, submit_command, submit_line, interrupt_running, leave_repl, handle_char,
  handle_chars, end_of_input, rub_out, enter_line, type_char, handle_key, is_repl, is_plain,
  but_last, is_empty,
}

-- The queued item is the setup command.
abbrev pub IsSetup : Command → Type 0
IsSetup none = Unit
IsSetup (some (line, mode)) = bytes_eq (strip line) (codes "linux-setup") ≡ true

abbrev pub AllSetup : List Command → Type 0
AllSetup [] = Unit
AllSetup (c ∷ cs) = IsSetup c × AllSetup cs

pub record IsGated (t : Terminal) : Type 0 where
  pub awaiting : t.awaiting_alpine ≡ true
  pub in_shell : t.mode ≡ shell
  pub no_lines : t.python_lines ≡ []
  pub no_pty : t.pty ≡ none
  pub queue : AllSetup t.command_queue

AllSetup-append :
    (cs : List Command) (c : Command) → AllSetup cs → IsSetup c → AllSetup (cs ++ c ∷ [])
AllSetup-append [] c h s = (s, tt)
AllSetup-append (d ∷ cs) c h s = (h.0, AllSetup-append cs c h.1 s)

-- Output does not open the gate.
SameInput-IsGated : {u t : Terminal} → SameInput u t → IsGated t → IsGated u
SameInput-IsGated s g = record {
  awaiting = s.awaiting_alpine ∙ g.awaiting;
  in_shell = s.mode ∙ g.in_shell;
  no_lines = s.python_lines ∙ g.no_lines;
  no_pty = s.pty ∙ g.no_pty;
  queue = rw s.command_queue g.queue;
}

emit-IsGated : (bytes : Bytes) {t : Terminal} → IsGated t → IsGated (emit bytes t)
emit-IsGated bytes {t} = SameInput-IsGated (emit-SameInput bytes t)

emit_prompt-IsGated : {t : Terminal} → IsGated t → IsGated (emit_prompt t)
emit_prompt-IsGated {t} = SameInput-IsGated (emit_prompt-SameInput t)

-- A change of the fields that the gate does not look at.
abbrev gate_fields : Terminal → Bool × Mode × List Text × Option ℕ × List Command
gate_fields t = (t.awaiting_alpine, t.mode, t.python_lines, t.pty, t.command_queue)

same_gate : {u t : Terminal} → gate_fields u ≡ gate_fields t → IsGated t → IsGated u
same_gate {u} {t} e g = record {
  awaiting = ap (λ (x : Bool × Mode × List Text × Option ℕ × List Command). x.0) e ∙ g.awaiting;
  in_shell = ap (λ (x : Bool × Mode × List Text × Option ℕ × List Command). x.1) e ∙ g.in_shell;
  no_lines = ap (λ (x : Bool × Mode × List Text × Option ℕ × List Command). x.2) e ∙ g.no_lines;
  no_pty = ap (λ (x : Bool × Mode × List Text × Option ℕ × List Command). x.3) e ∙ g.no_pty;
  queue =
      subst AllSetup (sym (ap (λ (x : Bool × Mode × List Text × Option ℕ × List Command). x.4) e))
        g.queue;
}

submit_at_gate-IsGated :
    (stripped line : Text) {t : Terminal}
    → strip line ≡ stripped
    → IsGated t
    → IsGated (submit_at_gate stripped line t)
unfolding submit_at_gate
submit_at_gate-IsGated stripped line {t} e g =
    if-elim_eq IsGated (bytes_eq stripped (codes "linux-setup"))
      (λ setup. record {
        awaiting = g.awaiting;
        in_shell = g.in_shell;
        no_lines = g.no_lines;
        no_pty = g.no_pty;
        queue = AllSetup-append t.command_queue (some (line, shell)) g.queue (rw e setup);
      })
      (λ other.
        let refusal = codes "Only `linux-setup` is available until Alpine is ready.\r\n" in
        SameInput-IsGated (emit_setup_prompt-SameInput (emit refusal t)) (emit-IsGated refusal g))

submit_command-IsGated :
    (host : Host) (line : Text) {t : Terminal}
    → IsGated t
    → IsGated (submit_command host (strip line) line t)
unfolding submit_command
submit_command-IsGated host line {t} g =
    simp g.awaiting (submit_at_gate-IsGated (strip line) line refl g)

history_record-IsGated : (line : Text) {t : Terminal} → IsGated t → IsGated (history_record line t)
unfolding history_record
history_record-IsGated line g = same_gate refl g

submit_line-IsGated :
    (host : Host) (line : Text) {t : Terminal} → IsGated t → IsGated (submit_line host line t)
unfolding submit_line
submit_line-IsGated host line {t} g =
    let blank = strip line in
    if-elim IsGated t.busy (same_gate refl g) (
      if-elim IsGated (is_empty blank) (simp g.no_lines (emit_prompt-IsGated g))
        (submit_command-IsGated host line (history_record-IsGated blank g)))

interrupt_running-IsGated :
    (host : Host) {t : Terminal} → IsGated t → IsGated (interrupt_running host t)
unfolding interrupt_running
interrupt_running-IsGated host {t} g =
    let bare : IsGated (record t { line_buffer = []; python_lines = [] }) = record {
      awaiting = g.awaiting;
      in_shell = g.in_shell;
      no_lines = refl;
      no_pty = g.no_pty;
      queue = g.queue;
    } in
    let u = emit-IsGated (codes "^C\r\n") bare in
    if-elim IsGated (emit (codes "^C\r\n") (record t { line_buffer = []; python_lines = [] })).busy
      (if-elim IsGated host.has_running_processes (same_gate refl u) (same_gate refl u))
      (emit_prompt-IsGated u)

leave_repl-IsGated : {t : Terminal} → IsGated t → IsGated (leave_repl t)
unfolding leave_repl
leave_repl-IsGated {t} g = emit_prompt-IsGated (record {
  awaiting = g.awaiting;
  in_shell = refl;
  no_lines = refl;
  no_pty = g.no_pty;
  queue = g.queue;
})

replace_line-IsGated : (text : Text) {t : Terminal} → IsGated t → IsGated (replace_line text t)
unfolding replace_line
replace_line-IsGated text g = emit-IsGated _ (same_gate refl g)

step_from-IsGated :
    (index : ℕ) (d : Direction) {t : Terminal} → IsGated t → IsGated (step_from index d t)
unfolding step_from
step_from-IsGated index d g =
    if-elim IsGated _ (replace_line-IsGated _ (same_gate refl g))
      (replace_line-IsGated _ (same_gate refl g))

step_at-IsGated :
    (i : Option ℕ) (d : Direction) {t : Terminal} → IsGated t → IsGated (step_at i d t)
unfolding step_at
step_at-IsGated none back {t} g = step_from-IsGated (length t.history) back (same_gate refl g)
step_at-IsGated none forward g = g
step_at-IsGated (some index) d g = step_from-IsGated index d g

arrow-IsGated : (char : ℕ) {t : Terminal} → IsGated t → IsGated (arrow char t)
unfolding arrow history_step
arrow-IsGated char {t} g =
    let step : (d : Direction) → IsGated (history_step d t) =
      λ d. if-elim IsGated _ g (step_at-IsGated t.history_index d g) in
    if-elim IsGated (char == b'A') (step back) (if-elim IsGated (char == b'B') (step forward) g)

handle_escape_in-IsGated :
    (s : EscState) (char : ℕ) {t : Terminal} → IsGated t → IsGated (handle_escape_in s char t)
unfolding handle_escape_in
handle_escape_in-IsGated plain char g = same_gate refl g
handle_escape_in-IsGated esc char g = same_gate refl g
handle_escape_in-IsGated ss3 char g = same_gate refl (arrow-IsGated char g)
handle_escape_in-IsGated csi char g =
    if-elim IsGated (leb 0x40 char && leb char 0x7e) (same_gate refl (arrow-IsGated char g)) g

end_of_input-IsGated : {t : Terminal} → IsGated t → IsGated (end_of_input t)
unfolding end_of_input
end_of_input-IsGated {t} g =
    if-elim IsGated (is_repl t.mode && is_empty t.line_buffer && not t.busy) (leave_repl-IsGated g)
      g

rub_out-IsGated : {t : Terminal} → IsGated t → IsGated (rub_out t)
unfolding rub_out
rub_out-IsGated {t} g =
    let shorter : IsGated (record t { line_buffer = but_last t.line_buffer }) = same_gate refl g in
    if-elim IsGated (is_empty t.line_buffer) g (emit-IsGated (8 ∷ 32 ∷ 8 ∷ []) shorter)

enter_line-IsGated : (host : Host) {t : Terminal} → IsGated t → IsGated (enter_line host t)
unfolding enter_line
enter_line-IsGated host {t} g =
    same_gate refl (submit_line-IsGated host t.line_buffer (emit-IsGated (13 ∷ 10 ∷ []) g))

type_char-IsGated : (char : ℕ) {t : Terminal} → IsGated t → IsGated (type_char char t)
unfolding type_char
type_char-IsGated char {t} g =
    let longer : IsGated (record t { line_buffer = t.line_buffer ++ char ∷ [] }) =
      same_gate refl g in
    emit-IsGated (encode (char ∷ [])) longer

handle_key-IsGated :
    (host : Host) (char : ℕ) {t : Terminal} → IsGated t → IsGated (handle_key host char t)
unfolding handle_key
handle_key-IsGated host char g = if-elim IsGated (char == 3) (interrupt_running-IsGated host g) (
    if-elim IsGated (char == 4) (end_of_input-IsGated g) (
      if-elim IsGated (char == 0x7f || char == 8) (rub_out-IsGated g) (
        if-elim IsGated (char == 13 || char == 10) (enter_line-IsGated host g)
          (if-elim IsGated (leb 32 char) (type_char-IsGated char g) g))))

handle_char-IsGated :
    (host : Host) (char : ℕ) {t : Terminal} → IsGated t → IsGated (handle_char host char t)
unfolding handle_char
handle_char-IsGated host char {t} g =
    if-elim IsGated (not (is_plain t.esc_state) || char == 0x1b)
      (handle_escape_in-IsGated t.esc_state char g) (handle_key-IsGated host char g)

-- While the setup gate is closed, no keyboard input opens it: whatever is typed, the session still
-- waits for Alpine, in shell mode, with no Alpine shell running, and every line queued for the worker
-- is `linux-setup` (up to blanks at its ends).
pub handle_chars-IsGated :
    (host : Host) (text : Text) {t : Terminal} → IsGated t → IsGated (handle_chars host text t)
unfolding handle_chars
handle_chars-IsGated host [] g = g
handle_chars-IsGated host (c ∷ text) g =
    handle_chars-IsGated host text (handle_char-IsGated host c g)
