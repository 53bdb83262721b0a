-- ===== src/Pty/Tests.antt =====
-- The theorems on the terminal session at concrete inputs, and runs of its methods.
use zabawheels.Prelude.{
  map, strip, one_of, bytes_eq, strip_left, strip_right, is_space, suc, ◌+◌, ◌*◌, ◌-◌, ◌<◌, ◌≤◌,
  ◌≡◌, refl, sym, drop-nil, true, false, none, some, List, [], ◌∷◌, ◌++◌, arith, Bytes, Text, codes,
  length, starts_with, take_last, concat, get_or, if◌then◌else◌,
}
use zabawheels.Pty.Control.{storage_setup_osc, filter_pty_controls}
use zabawheels.Pty.Control.Stream.{feed, feed-concat}
use zabawheels.Pty.Control.Cut.{IsCut}
use zabawheels.Pty.Control.Accounts.{filter_accounts, filter-Absent}
use zabawheels.Pty.Terminal.{shell, Mode, Terminal, new_terminal, emit, scrollback_max_size}
use zabawheels.Pty.Terminal.Scrollback.{shown, IsFaithful, emit-IsFaithful}
use zabawheels.Pty.Worker.{finish_command}
use zabawheels.Pty.TypeAhead.{AllCommands, command_queue-finish_command}
use zabawheels.Pty.Faithful.Events.{
  Event, started, typed, taken, printed, rendered, finished, live, scrollback_buffer-live,
}
use zabawheels.Pty.Editor.{back, forward}
use zabawheels.Pty.Editor.History.{
  presses, IsAtPrompt, line_buffer-presses_back, presses-back_forward,
}
use zabawheels.Pty.Session.{Host, pty_exited, handle_chars}
use zabawheels.Pty.Session.Gate.{IsGated, handle_chars-IsGated}
use zabawheels.Pty.Worker.Drained.{Run, exception, keyboard_interrupt, exec_loop, exec_loop-drains}
use zabawheels.Pty.Session.Exit.{OwnsOlder, pty_exited-again}

abbrev phone : Host
phone = record {
  installed = true;
  has_proot = true;
  argv_error = none;
  spawn_error = none;
  has_running_processes = false;
  python_version = codes "3.14.2";
  setup_gate_enabled = true;
  rc_output = [];
}

-- A read that ends inside a control, and the read that completes it.
abbrev split_reads : List Bytes
split_reads =
    (codes "ok" ++ 0x1b ∷ codes "]777;zmux-") ∷ (codes "setup-storage" ++ 7 ∷ codes "done") ∷ []

split_reads_run :
    feed storage_setup_osc [] split_reads
    ≡ record { out = codes "okdone"; controls = 1; control_tail = [] }
unfolding feed storage_setup_osc filter_pty_controls
split_reads_run = refl

feed-concat_example :
    feed storage_setup_osc [] split_reads
    ≡ filter_pty_controls storage_setup_osc [] (concat split_reads)
feed-concat_example = feed-concat split_reads

filter_accounts_example :
    IsCut storage_setup_osc
      (codes "a" ++ codes "bc")
      (filter_pty_controls storage_setup_osc (codes "a") (codes "bc"))
    × (starts_with
          (filter_pty_controls storage_setup_osc (codes "a") (codes "bc")).control_tail
          storage_setup_osc
        ≡ true)
    × (length (filter_pty_controls storage_setup_osc (codes "a") (codes "bc")).out
          + (filter_pty_controls storage_setup_osc (codes "a") (codes "bc")).controls * 25
          + length (filter_pty_controls storage_setup_osc (codes "a") (codes "bc")).control_tail
        ≡ length (codes "a") + length (codes "bc"))
    × (length (filter_pty_controls storage_setup_osc (codes "a") (codes "bc")).control_tail < 25)
filter_accounts_example = filter_accounts (codes "a") (codes "bc")

filter-Absent_example :
    filter_pty_controls storage_setup_osc [] (codes "ls\r\n")
    ≡ record { out = codes "ls\r\n"; controls = 0; control_tail = [] }
filter-Absent_example = filter-Absent (codes "ls\r\n") (omega arith)

abbrev home : Terminal
home = new_terminal (codes "~")

home-IsFaithful : IsFaithful home
home-IsFaithful = record { holds = unfold shown in sym (drop-nil (0 - scrollback_max_size)) }

emit-IsFaithful_example :
    IsFaithful (emit (codes "hi") home)
    × (shown (emit (codes "hi") home).effects
        ≡ shown home.effects
          ++ (filter_pty_controls storage_setup_osc home.control_tail (codes "hi")).out)
emit-IsFaithful_example = emit-IsFaithful (codes "hi") home-IsFaithful

abbrev typing : Terminal
typing = record home { history = codes "ls" ∷ codes "pwd" ∷ []; line_buffer = codes "ec" }

typing-IsAtPrompt : IsAtPrompt typing
typing-IsAtPrompt = record { idle = refl; unwalked = refl; some_history = omega arith }

line_buffer-presses_back_example :
    (presses (suc 1) back typing).line_buffer
    ≡ get_or typing.history (length typing.history - suc 1) []
line_buffer-presses_back_example = line_buffer-presses_back 1 typing-IsAtPrompt

presses-back_forward_example :
    ((presses (suc 1) forward (presses (suc 1) back typing)).line_buffer ≡ typing.line_buffer)
    × ((presses (suc 1) forward (presses (suc 1) back typing)).history ≡ typing.history)
    × ((presses (suc 1) forward (presses (suc 1) back typing)).history_index ≡ none)
presses-back_forward_example = presses-back_forward 1 typing-IsAtPrompt (omega arith)

-- A session that waits for Alpine.
abbrev waiting : Terminal
waiting = record home { is_running = true; awaiting_alpine = true }

waiting-IsGated : IsGated waiting
waiting-IsGated = record {
  awaiting = refl;
  in_shell = refl;
  no_lines = refl;
  no_pty = refl;
  queue = tt;
}

handle_chars-IsGated_example : IsGated (handle_chars phone (codes "python\rlinux-setup\r") waiting)
handle_chars-IsGated_example =
    handle_chars-IsGated phone (codes "python\rlinux-setup\r") waiting-IsGated

-- A session with an Alpine shell, the second that it opened.
abbrev in_alpine : Terminal
in_alpine = record home { is_running = true; pty = some 1; spawned = 2 }

in_alpine-OwnsOlder : OwnsOlder in_alpine
in_alpine-OwnsOlder p e = ground arith

pty_exited-again_example :
    pty_exited phone 1 (codes "1") (pty_exited phone 1 (codes "0") in_alpine)
    ≡ pty_exited phone 1 (codes "0") in_alpine
pty_exited-again_example =
    pty_exited-again phone 1 (codes "0") (codes "1") in_alpine in_alpine-OwnsOlder refl

-- A session's first moments: it starts, `ls` is typed and run, and it prints a line.
abbrev first_events : List (Host × Event)
first_events =
    (phone, started)
    ∷ (phone, typed (codes "ls\r"))
    ∷ (phone, taken)
    ∷ (phone, printed (codes "bin\r\n"))
    ∷ (phone, rendered [])
    ∷ (phone, finished)
    ∷ []

scrollback_buffer-live_example :
    ((live (λ bytes. bytes) first_events (new_terminal (codes "~"))).scrollback_buffer
      ≡ take_last scrollback_max_size
          (shown (live (λ bytes. bytes) first_events (new_terminal (codes "~"))).effects))
    × (length (live (λ bytes. bytes) first_events (new_terminal (codes "~"))).scrollback_buffer
        ≤ scrollback_max_size)
scrollback_buffer-live_example = scrollback_buffer-live (λ bytes. bytes) (codes "~") first_events

-- A command runs, and two more lines have been typed.
abbrev typed_ahead : Terminal
typed_ahead = record home {
  is_running = true;
  busy = true;
  stdin_queue = codes "ls" ∷ codes "pwd " ∷ [];
}

typed_ahead-AllCommands : AllCommands typed_ahead.stdin_queue
unfolding strip one_of bytes_eq strip_left strip_right is_space
typed_ahead-AllCommands = (
  record { not_blank = refl; not_python = refl; not_alpine = refl },
  (record { not_blank = refl; not_python = refl; not_alpine = refl }, tt),
)

command_queue-finish_command_example :
    (finish_command phone typed_ahead).command_queue
    ≡ typed_ahead.command_queue
      ++ (if typed_ahead.interrupted
          then []
          else map (λ line. some (line, shell)) typed_ahead.stdin_queue)
command_queue-finish_command_example =
    command_queue-finish_command phone typed_ahead refl refl refl typed_ahead-AllCommands

-- Two lines wait for the worker.
abbrev two_lines : List (Text × Mode)
two_lines = (codes "ls", shell) ∷ (codes "pwd", shell) ∷ []

abbrev loaded : Terminal
loaded = record (new_terminal (codes "~")) { is_running = true; command_queue = map some two_lines }

-- The first line fails, the second is interrupted.
abbrev unlucky : Text → Mode → Terminal → Run
unlucky line mode t = record {
  shown = (1 ∷ []) ∷ [];
  cwd = codes "~";
  outcome =
      if bytes_eq line (codes "ls") then exception (codes "no memory") else keyboard_interrupt;
}

exec_loop-drains_example :
    ((exec_loop phone unlucky 2 loaded).0 ≡ two_lines)
    × ((exec_loop phone unlucky 2 loaded).1.command_queue ≡ [])
exec_loop-drains_example = exec_loop-drains phone unlucky two_lines loaded (false, refl)
