-- ===== src/Sessions/Terminals.antt =====
-- The terminals of app/zmux/pty_session.py as the sessions of app/zmux/sessions.py: what a call shows
-- goes to the emit callback that the manager gave the session.
use zabawheels.Prelude.{List, [], ◌∷◌, ◌++◌, Bytes, Text}
use zabawheels.Pty.Terminal.{Effect, output, Terminal, new_terminal}
use zabawheels.Pty.Session.{Host, write_input}
use zabawheels.Pty.Worker.{start, stop, resize}
use zabawheels.Sessions.{SessionOps}

-- The bytes for the screen among the effects.
abbrev pub outputs : List Effect → List Bytes
outputs [] = []
outputs (output bytes ∷ es) = bytes ∷ outputs es
outputs (e ∷ es) = outputs es

-- A call on a terminal, with what it shows.
abbrev pub call : (Terminal → Terminal) → Terminal → Terminal × List Bytes
call f t =
    let u = f (record t { effects = [] }) in
    (record u { effects = t.effects ++ u.effects }, outputs u.effects)

abbrev pub terminal_ops : Host → (Bytes → Text) → Text → SessionOps
terminal_ops host decode cwd = record {
  Session = Terminal;
  fresh = new_terminal cwd;
  start = call (start host);
  stop = λ t. (call stop t).1;
  resize = λ columns lines t. (call (resize columns lines) t).0;
  write_input = λ bytes. call (write_input host decode bytes);
  scrollback = λ t. t.scrollback_buffer;
  is_busy = λ t. t.busy;
}
