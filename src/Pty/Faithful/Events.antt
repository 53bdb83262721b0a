-- ===== src/Pty/Faithful/Events.antt =====
-- Any life of a session: the scrollback under every sequence of events.
use zabawheels.Prelude.Int.{ℤ}
use zabawheels.Prelude.{
  ℕ, ◌≤◌, ◌≡◌, refl, none, some, Bool-cases, inl, inr, List, [], ◌∷◌, Bytes, Text, length,
  take_last,
}
use zabawheels.Pty.Terminal.{Terminal, Command, new_terminal, emit, scrollback_max_size}
use zabawheels.Pty.Terminal.Scrollback.{shown, IsFaithful, scrollback-le}
use zabawheels.Pty.Session.{Host, pty_exited, toggle_pty, write_input}
use zabawheels.Pty.Worker.{
  start, stop, resize, Taken, ended, running, take_command, render_result, finish_command,
}
use zabawheels.Pty.Faithful.{keep-IsFaithful, emits, pty_exited-IsFaithful, toggle_pty-IsFaithful}
use zabawheels.Pty.Faithful.Keys.{write_input-IsFaithful}
use zabawheels.Pty.Faithful.Worker.{
  start-IsFaithful, stop-IsFaithful, resize-IsFaithful, render_result-IsFaithful,
  finish_command-IsFaithful,
}

-- What happens to a session: calls from the manager and the websocket, output of the Alpine shell or
-- of a command, the end of an Alpine shell, and the steps of the worker.
pub data Event : Type 0 where
  started : Event
  typed : Bytes → Event
  resized : ℤ → ℤ → Event
  toggled : Event
  printed : Bytes → Event
  exited : ℕ → Text → Event
  taken : Event
  rendered : Bytes → Event
  finished : Event
  stopped : Event

abbrev state_of : Taken → Terminal
state_of (ended t) = t
state_of (running line mode t) = t

-- The worker waits while its queue is empty.
unfoldable pub take_next : List Command → Terminal → Terminal
take_next [] t = t
take_next (c ∷ rest) t = state_of (take_command c rest t)

unfoldable pub react : Host → (Bytes → Text) → Event → Terminal → Terminal
react host decode started t = start host t
react host decode (typed bytes) t = write_input host decode bytes t
react host decode (resized columns lines) t = resize columns lines t
react host decode toggled t = toggle_pty host t
react host decode (printed bytes) t = emit bytes t
react host decode (exited p code) t = pty_exited host p code t
react host decode taken t = take_next t.command_queue t
react host decode (rendered pending) t = render_result host pending t
react host decode finished t = finish_command host t
react host decode stopped t = stop t

-- The device may answer anew at each event.
unfoldable pub live : (Bytes → Text) → List (Host × Event) → Terminal → Terminal
live decode [] t = t
live decode ((host, event) ∷ events) t = live decode events (react host decode event t)

take_next-IsFaithful :
    (queue : List Command) {t : Terminal} → IsFaithful t → IsFaithful (take_next queue t)
unfolding take_next take_command
take_next-IsFaithful [] f = f
take_next-IsFaithful (none ∷ rest) f = keep-IsFaithful refl refl f
take_next-IsFaithful (some (line, mode) ∷ rest) {t} f = elim (Bool-cases t.is_running) [
  | inl on ↦ rw on (keep-IsFaithful refl refl f)
  | inr off ↦ rw off (keep-IsFaithful refl refl f)
]

react-IsFaithful :
    (host : Host) (decode : Bytes → Text) (event : Event) {t : Terminal}
    → IsFaithful t
    → IsFaithful (react host decode event t)
unfolding react
react-IsFaithful host decode started f = start-IsFaithful host f
react-IsFaithful host decode (typed bytes) f = write_input-IsFaithful host decode bytes f
react-IsFaithful host decode (resized columns lines) f = resize-IsFaithful columns lines f
react-IsFaithful host decode toggled f = toggle_pty-IsFaithful host f
react-IsFaithful host decode (printed bytes) f = emits bytes f
react-IsFaithful host decode (exited p code) f = pty_exited-IsFaithful host p code f
react-IsFaithful host decode taken {t} f = take_next-IsFaithful t.command_queue f
react-IsFaithful host decode (rendered pending) f = render_result-IsFaithful host pending f
react-IsFaithful host decode finished f = finish_command-IsFaithful host f
react-IsFaithful host decode stopped f = stop-IsFaithful f

live-IsFaithful :
    (decode : Bytes → Text) (events : List (Host × Event)) {t : Terminal}
    → IsFaithful t
    → IsFaithful (live decode events t)
unfolding live
live-IsFaithful decode [] f = f
live-IsFaithful decode ((host, event) ∷ events) f =
    live-IsFaithful decode events (react-IsFaithful host decode event f)

new_terminal-IsFaithful : (cwd : Text) → IsFaithful (new_terminal cwd)
unfolding shown scrollback_max_size
new_terminal-IsFaithful cwd = record { holds = refl }

-- From a new session on, whatever is typed, printed, resized, opened, ended or run, in whatever order,
-- the scrollback is the last MiB of all the bytes that went to the screen, and not longer than that.
pub scrollback_buffer-live :
    (decode : Bytes → Text) (cwd : Text) (events : List (Host × Event))
    → ((live decode events (new_terminal cwd)).scrollback_buffer
        ≡ take_last scrollback_max_size (shown (live decode events (new_terminal cwd)).effects))
      × (length (live decode events (new_terminal cwd)).scrollback_buffer ≤ scrollback_max_size)
scrollback_buffer-live decode cwd events =
    let f = live-IsFaithful decode events (new_terminal-IsFaithful cwd) in
    (f.holds, scrollback-le f)
