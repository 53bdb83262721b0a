-- ===== src/Pty/Terminal/Fields.antt =====
-- What output leaves alone.
use zabawheels.Prelude.{ℕ, zero, suc, ◌≡◌, refl, ◌∙◌, if-elim, [], ◌∷◌, arith, Bytes}
use zabawheels.Pty.Control.{storage_setup_osc, filter_pty_controls}
use zabawheels.Pty.Terminal.{
  Terminal, show_bytes, request_storage_setup, request_times, emit, fresh_line, emit_prompt,
  emit_setup_prompt,
}

-- `u` has the input side of `t`: all but the screen, the scrollback and the storage request.
pub record SameInput (u t : Terminal) : Type 0 where
  pub is_running : u.is_running ≡ t.is_running
  pub busy : u.busy ≡ t.busy
  pub interrupted : u.interrupted ≡ t.interrupted
  pub mode : u.mode ≡ t.mode
  pub esc_state : u.esc_state ≡ t.esc_state
  pub line_buffer : u.line_buffer ≡ t.line_buffer
  pub python_lines : u.python_lines ≡ t.python_lines
  pub pty : u.pty ≡ t.pty
  pub spawned : u.spawned ≡ t.spawned
  pub history : u.history ≡ t.history
  pub history_index : u.history_index ≡ t.history_index
  pub history_stash : u.history_stash ≡ t.history_stash
  pub awaiting_alpine : u.awaiting_alpine ≡ t.awaiting_alpine
  pub start_alpine_after_command : u.start_alpine_after_command ≡ t.start_alpine_after_command
  pub command_queue : u.command_queue ≡ t.command_queue
  pub stdin_queue : u.stdin_queue ≡ t.stdin_queue

pub SameInput-refl : (t : Terminal) → SameInput t t
SameInput-refl t = record {
  is_running = refl;
  busy = refl;
  interrupted = refl;
  mode = refl;
  esc_state = refl;
  line_buffer = refl;
  python_lines = refl;
  pty = refl;
  spawned = refl;
  history = refl;
  history_index = refl;
  history_stash = refl;
  awaiting_alpine = refl;
  start_alpine_after_command = refl;
  command_queue = refl;
  stdin_queue = refl;
}

pub SameInput-trans : {v u t : Terminal} → SameInput v u → SameInput u t → SameInput v t
SameInput-trans p q = record {
  is_running = p.is_running ∙ q.is_running;
  busy = p.busy ∙ q.busy;
  interrupted = p.interrupted ∙ q.interrupted;
  mode = p.mode ∙ q.mode;
  esc_state = p.esc_state ∙ q.esc_state;
  line_buffer = p.line_buffer ∙ q.line_buffer;
  python_lines = p.python_lines ∙ q.python_lines;
  pty = p.pty ∙ q.pty;
  spawned = p.spawned ∙ q.spawned;
  history = p.history ∙ q.history;
  history_index = p.history_index ∙ q.history_index;
  history_stash = p.history_stash ∙ q.history_stash;
  awaiting_alpine = p.awaiting_alpine ∙ q.awaiting_alpine;
  start_alpine_after_command = p.start_alpine_after_command ∙ q.start_alpine_after_command;
  command_queue = p.command_queue ∙ q.command_queue;
  stdin_queue = p.stdin_queue ∙ q.stdin_queue;
}

request_storage_setup-SameInput : (t : Terminal) → SameInput (request_storage_setup t) t
unfolding request_storage_setup
request_storage_setup-SameInput t = ground arith

request_times-SameInput : (n : ℕ) (t : Terminal) → SameInput (request_times n t) t
unfolding request_times
request_times-SameInput zero t = SameInput-refl t
request_times-SameInput (suc n) t =
    SameInput-trans (request_times-SameInput n (request_storage_setup t))
      (request_storage_setup-SameInput t)

show_bytes-SameInput : (bytes : Bytes) (t : Terminal) → SameInput (show_bytes bytes t) t
unfolding show_bytes
show_bytes-SameInput [] t = SameInput-refl t
show_bytes-SameInput (b ∷ bytes) t = ground arith

pub emit-SameInput : (bytes : Bytes) (t : Terminal) → SameInput (emit bytes t) t
unfolding emit
emit-SameInput bytes t =
    let f = filter_pty_controls storage_setup_osc t.control_tail bytes in
    let u = record t { control_tail = f.control_tail } in
    let v = request_times f.controls u in
    let tail_only : SameInput u t = ground arith in
    SameInput-trans (show_bytes-SameInput f.out v)
      (SameInput-trans (request_times-SameInput f.controls u) tail_only)

pub fresh_line-SameInput : (t : Terminal) → SameInput (fresh_line t) t
unfolding fresh_line
fresh_line-SameInput t =
    if-elim (λ u. SameInput u t) t.at_line_start (SameInput-refl t)
      (emit-SameInput (13 ∷ 10 ∷ []) t)

pub emit_prompt-SameInput : (t : Terminal) → SameInput (emit_prompt t) t
unfolding emit_prompt
emit_prompt-SameInput t = SameInput-trans (emit-SameInput _ (fresh_line t)) (fresh_line-SameInput t)

pub emit_setup_prompt-SameInput : (t : Terminal) → SameInput (emit_setup_prompt t) t
unfolding emit_setup_prompt
emit_setup_prompt-SameInput t =
    SameInput-trans (emit-SameInput _ (fresh_line t)) (fresh_line-SameInput t)
