-- ===== src/Pty/Worker/Drained.antt =====
-- The worker's loop, `_exec_loop` of app/zmux/pty_session.py, round after round. What the interpreter makes
-- of a line is a parameter. `KeyboardInterrupt` while the worker waits changes nothing and is left out.
use zabawheels.Prelude.{
  ℕ, zero, suc, ◌≡◌, refl, sym, ap, ◌∙◌, subst, Bool, true, false, some, List, [], ◌∷◌, ◌++◌, map,
  Bytes, encode, codes, Text, length, if-elim, if-elim_eq, false≢true,
}
use zabawheels.Pty.Control.{storage_setup_osc, filter_pty_controls}
use zabawheels.Pty.Terminal.{
  Terminal, Mode, Command, emit, emit_prompt, show_bytes, request_storage_setup, request_times,
  fresh_line, prompt,
}
use zabawheels.Pty.Session.{Host}
use zabawheels.Pty.Worker.{
  Taken, ended, running, emit_all, take_command, emit_pending, render_result, submit_lines,
  finish_command,
}

-- A round of the loop: it waits for an item, it ends, or it has run a line.
pub data Round : Type 0 where
  waits : Round
  ends : Terminal → Round
  ran : Text → Mode → Terminal → Round

-- How `_run_line` ends: a command or Python has run, with the text that no sink has shown yet; the line
-- is the start of a longer statement; or an exception leaves it.
pub data RunEnd : Type 0 where
  command_done : Bytes → RunEnd
  python_done : Bytes → RunEnd
  incomplete : RunEnd
  keyboard_interrupt : RunEnd
  exception : Text → RunEnd

-- A run: what it shows on the way, the directory it leaves, and its end.
pub record Run : Type 0 where
  pub shown : List Bytes
  pub cwd : Text
  pub outcome : RunEnd

module _ (host : Host) where
  -- The end of `_run_python_line` and of `_execute_and_render`, and the `except` clauses of `_exec_loop`.
  unfoldable pub run_end : RunEnd → Text → Terminal → Terminal
  run_end (command_done pending) line t = render_result host pending t
  run_end (python_done pending) line t = record (render_result host pending t) { python_lines = [] }
  run_end incomplete line t =
      record (emit (codes "... ") (record t { python_lines = t.python_lines ++ line ∷ [] })) {
        busy = false;
      }
  run_end keyboard_interrupt line t =
      emit_prompt (record (emit (codes "KeyboardInterrupt\r\n") t) { interrupted = true })
  run_end (exception error) line t =
      emit_prompt (emit (encode (codes "[session error: " ++ error ++ codes "]\r\n")) t)

  unfoldable pub run_line : Run → Text → Terminal → Terminal
  run_line run line t = run_end run.outcome line (emit_all run.shown (record t { cwd = run.cwd }))

module _ (host : Host) (runs : Text → Mode → Terminal → Run) where
  unfoldable pub run_taken : Taken → Round
  run_taken (ended t) = ends t
  run_taken (running line mode t) =
      ran line mode (finish_command host (run_line host (runs line mode t) line t))

  unfoldable pub exec_round : List Command → Terminal → Round
  exec_round [] t = waits
  exec_round (c ∷ rest) t = run_taken (take_command c rest t)

  -- That many rounds, with the lines that they run.
  unfoldable pub exec_loop : ℕ → Terminal → List (Text × Mode) × Terminal
  exec_loop zero t = ([], t)
  exec_loop (suc n) t = elim (exec_round t.command_queue t) [
    | waits ↦ ([], t)
    | ends u ↦ ([], u)
    | ran line mode u ↦ let (lines, v) = exec_loop n u in ((line, mode) ∷ lines, v)
  ]

-- What the loop looks at: whether the session runs, whether Alpine's gate is closed or its shell is to
-- open, whether Ctrl+C was pressed, and the two queues.
pub record Control : Type 0 where
  pub runs : Bool
  pub gate : Bool
  pub opens : Bool
  pub pressed : Bool
  pub queued : List Command
  pub typed : List Text

abbrev pub control : Terminal → Control
control t = record {
  runs = t.is_running;
  gate = t.awaiting_alpine;
  opens = t.start_alpine_after_command;
  pressed = t.interrupted;
  queued = t.command_queue;
  typed = t.stdin_queue;
}

-- A session that runs, with its gate open and nothing typed ahead, where these commands wait.
abbrev pub at_prompt : Bool → List Command → Control
at_prompt pressed queued = record {
  runs = true;
  gate = false;
  opens = false;
  pressed = pressed;
  queued = queued;
  typed = [];
}

control-request_storage_setup : (t : Terminal) → control (request_storage_setup t) ≡ control t
unfolding request_storage_setup
control-request_storage_setup t =
    if-elim {A = Terminal} (λ u. control u ≡ control t) t.storage_setup_pending refl refl

control-request_times : (n : ℕ) (t : Terminal) → control (request_times n t) ≡ control t
unfolding request_times
control-request_times zero t = refl
control-request_times (suc n) t =
    control-request_times n (request_storage_setup t) ∙ control-request_storage_setup t

control-show_bytes : (bytes : Bytes) (t : Terminal) → control (show_bytes bytes t) ≡ control t
unfolding show_bytes
control-show_bytes [] t = refl
control-show_bytes (b ∷ bytes) t = refl

-- What is shown does not reach it.
control-emit : (bytes : Bytes) (t : Terminal) → control (emit bytes t) ≡ control t
unfolding emit
control-emit bytes t =
    let f = filter_pty_controls storage_setup_osc t.control_tail bytes in
    let tailed = record t { control_tail = f.control_tail } in
    control-show_bytes f.out (request_times f.controls tailed)
    ∙ control-request_times f.controls tailed

control-fresh_line : (t : Terminal) → control (fresh_line t) ≡ control t
unfolding fresh_line
control-fresh_line t =
    if-elim {A = Terminal} (λ u. control u ≡ control t) t.at_line_start refl
      (control-emit (13 ∷ 10 ∷ []) t)

control-emit_prompt : (t : Terminal) → control (emit_prompt t) ≡ control t
unfolding emit_prompt
control-emit_prompt t =
    control-emit (encode (prompt (fresh_line t).mode (fresh_line t).cwd)) (fresh_line t)
    ∙ control-fresh_line t

control-emit_pending :
    (pending : Bytes) (t : Terminal) → control (emit_pending pending t) ≡ control t
unfolding emit_pending
control-emit_pending [] t = refl
control-emit_pending (b ∷ pending) t = control-emit (b ∷ pending) t

-- The session runs, its gate is open, nothing was typed ahead, and these lines wait.
abbrev pub Waiting : List (Text × Mode) → Terminal → Type 0
Waiting items t = (pressed : Bool) × (control t ≡ at_prompt pressed (map some items))

-- A command that prints leaves it alone.
control-render_result :
    (host : Host) (pending : Bytes) (t : Terminal)
    → t.awaiting_alpine ≡ false
    → control (render_result host pending t) ≡ control t
unfolding render_result
control-render_result host pending t gate =
    let shown = control-emit_pending pending t in
    let open_gate : (emit_pending pending t).awaiting_alpine ≡ false =
      ap (λ c. c.gate) shown ∙ gate in
    if-elim_eq {A = Terminal} (λ u. control u ≡ control t) (emit_pending pending t).awaiting_alpine
      (λ shut. absurd (false≢true (sym open_gate ∙ shut)))
      (λ still_open. control-emit_prompt (emit_pending pending t) ∙ shown)

control-emit_all : (shown : List Bytes) (t : Terminal) → control (emit_all shown t) ≡ control t
unfolding emit_all
control-emit_all [] t = refl
control-emit_all (b ∷ bs) t = control-emit_all bs (emit b t) ∙ control-emit b t

-- However a run ends, it leaves the queues and the gate alone; it may leave the interrupt flag set.
abbrev pub Undisturbed : Control → Terminal → Type 0
Undisturbed c t = (pressed : Bool) × (control t ≡ record c { pressed = pressed })

Undisturbed-run_end :
    (host : Host) (outcome : RunEnd) (line : Text) (t : Terminal)
    → t.awaiting_alpine ≡ false
    → Undisturbed (control t) (run_end host outcome line t)
unfolding run_end
Undisturbed-run_end host (command_done pending) line t gate =
    (t.interrupted, control-render_result host pending t gate)
Undisturbed-run_end host (python_done pending) line t gate =
    (t.interrupted, control-render_result host pending t gate)
Undisturbed-run_end host incomplete line t gate = (
  t.interrupted,
  control-emit (codes "... ") (record t { python_lines = t.python_lines ++ line ∷ [] }),
)
Undisturbed-run_end host keyboard_interrupt line t gate =
    let shown = emit (codes "KeyboardInterrupt\r\n") t in
    (
      true,
      control-emit_prompt (record shown { interrupted = true })
          ∙ ap (λ (c : Control). record c { pressed = true })
              (control-emit (codes "KeyboardInterrupt\r\n") t),
    )
Undisturbed-run_end host (exception error) line t gate =
    let bytes = encode (codes "[session error: " ++ error ++ codes "]\r\n") in
    (t.interrupted, control-emit_prompt (emit bytes t) ∙ control-emit bytes t)

Undisturbed-run_line :
    (host : Host) (run : Run) (line : Text) (t : Terminal)
    → t.awaiting_alpine ≡ false
    → Undisturbed (control t) (run_line host run line t)
unfolding run_line
Undisturbed-run_line host run line t gate =
    let moved = record t { cwd = run.cwd } in
    let same = control-emit_all run.shown moved in
    let (pressed, e) =
      Undisturbed-run_end host run.outcome line (emit_all run.shown moved)
        (ap (λ c. c.gate) same ∙ gate) in
    (pressed, e ∙ ap (λ (c : Control). record c { pressed = pressed }) same)

finished :
    (host : Host) (pressed : Bool) (items : List (Text × Mode)) (t : Terminal)
    → control t ≡ at_prompt pressed (map some items)
    → Waiting items (finish_command host t) × ((finish_command host t).busy ≡ false)
unfolding finish_command submit_lines
finished host pressed items t e =
    let closed : t.start_alpine_after_command ≡ false = ap (λ c. c.opens) e in
    let untyped : t.stdin_queue ≡ [] = ap (λ c. c.typed) e in
    let base = record t { busy = false; stdin_queue = [] } in
    let K : List Text → Type 0 = λ lines.
      Waiting items (submit_lines host lines base)
      × ((submit_lines host lines base).busy ≡ false) in
    let P : Terminal → Type 0 = λ u. Waiting items u × (u.busy ≡ false) in
    if-elim_eq P t.interrupted
      (λ hit. ((false, ap (λ (c : Control). record c { typed = []; pressed = false }) e), refl))
      (λ whole.
        if-elim_eq P t.start_alpine_after_command
          (λ opening. absurd (false≢true (sym closed ∙ opening)))
          (λ stays.
            subst K (sym untyped)
              ((pressed, ap (λ (c : Control). record c { typed = [] }) e), refl)))

-- A round runs the first line, and leaves the others.
round_runs :
    (host : Host) (runs : Text → Mode → Terminal → Run) (line : Text) (mode : Mode)
    (items : List (Text × Mode)) (t : Terminal)
    → Waiting ((line, mode) ∷ items) t
    → (u : Terminal) × (exec_round host runs t.command_queue t ≡ ran line mode u) × Waiting items u
unfolding exec_round run_taken take_command
round_runs host runs line mode items t (pressed, e) =
    let taken = record t { command_queue = map some items; busy = true; interrupted = false } in
    let running : t.is_running ≡ true = ap (λ c. c.runs) e in
    let queued : t.command_queue ≡ some (line, mode) ∷ map some items = ap (λ c. c.queued) e in
    let taken_e : control taken ≡ at_prompt false (map some items) =
      ap (λ (c : Control). record c { pressed = false; queued = map some items }) e in
    let after = run_line host (runs line mode taken) line taken in
    let (hit, left) =
      Undisturbed-run_line host (runs line mode taken) line taken (ap (λ c. c.gate) e) in
    let (waiting, idle) =
      finished host hit items after
        (left ∙ ap (λ (c : Control). record c { pressed = hit }) taken_e) in
    (finish_command host after, rw (queued, running) refl, waiting)

-- Every line that waits is run: in as many rounds as there are lines the worker runs them all, once each
-- and in their order, whatever they print and however each ends (it is done, it awaits more of a statement,
-- it is interrupted, or an exception leaves it), and then its queue is empty. This is for a session that
-- runs, with Alpine's gate open, no Alpine shell to open, and nothing typed ahead.
pub exec_loop-drains :
    (host : Host) (runs : Text → Mode → Terminal → Run) (items : List (Text × Mode)) (t : Terminal)
    → Waiting items t
    → ((exec_loop host runs (length items) t).0 ≡ items)
      × ((exec_loop host runs (length items) t).1.command_queue ≡ [])
unfolding exec_loop
exec_loop-drains host runs [] t (pressed, e) = (refl, ap (λ c. c.queued) e)
exec_loop-drains host runs ((line, mode) ∷ items) t w =
    let (u, ran_it, w') = round_runs host runs line mode items t w in
    let (lines, empty) = exec_loop-drains host runs items u w' in
    rw (ran_it, exec_loop) (ap (◌∷◌ (line, mode)) lines, empty)
