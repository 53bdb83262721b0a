-- ===== src/Pty/TypeAhead.antt =====
-- Lines typed while a command runs.
use zabawheels.Prelude.{
  ◌≡◌, refl, sym, ap, ◌∙◌, false, some, List, [], ◌∷◌, ◌++◌, map, append-nil, append_assoc, Text,
  is_empty, one_of, strip, if◌then◌else◌, Bool-cases, inl, inr,
}
use zabawheels.Pty.Terminal.{shell, Terminal}
use zabawheels.Pty.Editor.{history_record}
use zabawheels.Pty.Session.{Host, submit_command, submit_line}
use zabawheels.Pty.Worker.{submit_lines, finish_command}

-- A line that the shell hands to the worker: not blank, and no word that changes the mode.
pub record IsCommand (line : Text) : Type 0 where
  pub not_blank : is_empty (strip line) ≡ false
  pub not_python : one_of ("python" ∷ "python3" ∷ []) (strip line) ≡ false
  pub not_alpine : one_of ("linux" ∷ "alpine" ∷ []) (strip line) ≡ false

abbrev pub AllCommands : List Text → Type 0
AllCommands [] = Unit
AllCommands (line ∷ lines) = IsCommand line × AllCommands lines

-- The session is at its shell prompt.
pub record IsAtShell (t : Terminal) : Type 0 where
  pub idle : t.busy ≡ false
  pub open_gate : t.awaiting_alpine ≡ false
  pub in_shell : t.mode ≡ shell

submit_line-IsCommand :
    (host : Host) (line : Text) (t : Terminal)
    → IsCommand line
    → IsAtShell t
    → submit_line host line t ≡ record (history_record (strip line) t) {
      command_queue = t.command_queue ++ some (line, shell) ∷ [];
    }
unfolding submit_line submit_command history_record
submit_line-IsCommand host line t c s =
    simp (s.idle, s.open_gate, s.in_shell, c.not_blank, c.not_python, c.not_alpine) refl

submit_lines-AllCommands :
    (host : Host) (lines : List Text) (t : Terminal)
    → AllCommands lines
    → IsAtShell t
    → (submit_lines host lines t).command_queue
      ≡ t.command_queue ++ map (λ line. some (line, shell)) lines
unfolding submit_lines history_record
submit_lines-AllCommands host [] t c s = sym (append-nil t.command_queue)
submit_lines-AllCommands host (line ∷ lines) t (c, cs) s =
    let next = record (history_record (strip line) t) {
      command_queue = t.command_queue ++ some (line, shell) ∷ [];
    } in
    ap (λ u. (submit_lines host lines u).command_queue) (submit_line-IsCommand host line t c s)
    ∙ submit_lines-AllCommands host lines next cs
        (record { idle = s.idle; open_gate = s.open_gate; in_shell = s.in_shell })
    ∙ append_assoc t.command_queue (some (line, shell) ∷ [])
        (map (λ line. some (line, shell)) lines)

-- Lines typed ahead are not lost and keep their order: when a command ends that was not interrupted,
-- every line that it did not read goes to the worker as a command, behind the ones that wait there;
-- after Ctrl+C none does. This is for the shell prompt with Alpine's gate open, no Alpine shell to
-- open, and lines that are commands.
pub command_queue-finish_command :
    (host : Host) (t : Terminal)
    → t.awaiting_alpine ≡ false
    → t.start_alpine_after_command ≡ false
    → t.mode ≡ shell
    → AllCommands t.stdin_queue
    → (finish_command host t).command_queue
      ≡ t.command_queue
        ++ (if t.interrupted then [] else map (λ line. some (line, shell)) t.stdin_queue)
unfolding finish_command
command_queue-finish_command host t gate start mode c = elim (Bool-cases t.interrupted) [
  | inl interrupted ↦ simp interrupted (sym (append-nil t.command_queue))
  | inr whole ↦
      simp (whole, start)
        (submit_lines-AllCommands host t.stdin_queue
          (record t {
            busy = false;
            interrupted = false;
            start_alpine_after_command = false;
            stdin_queue = [];
          })
          c (record { idle = refl; open_gate = gate; in_shell = mode }))
]
