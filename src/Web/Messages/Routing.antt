-- ===== src/Web/Messages/Routing.antt =====
-- What the messages of clients (app/zmux/ws_server.py) do to the tabs (app/zmux/sessions.py).
use mathlib.Core.Option
use mathlib.Core.Option.{some-injective}
use zabawheels.Prelude.Int.{ℤ}
use zabawheels.Prelude.{
  ℕ, ◌≡◌, refl, ap, ◌∙◌, subst, Bool, ◌||◌, Option, none, some, List, [], ◌∷◌, Bytes, ◌==◌, if-elim,
  Bool-cases, inl, inr,
}
use zabawheels.Sessions.{SessionOps, Manager, close, write_input, resize}
use zabawheels.Sessions.History.{Call, keys_typed, resized, perform}
use zabawheels.Sessions.Tabs.{Bar, follow, follow_all}
use zabawheels.Web.Messages.{
  Python, Control, fit, tabs, toggle, control_of, Hub, perform_tab, send_state, toggle_active,
  on_resize, on_data, obey, obeyed, or_input, handle_client_message, message_loop,
}
use zabawheels.Web.Messages.Asked.{
  calls_of_control, calls_of_message, calls_of_control-control_of, calls_of, follow_all-append,
  pongs, Follows, Follows-perform, Follows-get_manager, Follows-perform_tab, Follows-toggle_active,
}

module _ (ops : SessionOps) (toggle_pty : ops.Session → ops.Session × List Bytes) where
  open ops use {Session}

  -- A call that the callbacks make, on the manager that there is.
  Follows-callback :
      (c : Call) (call : Manager Session → Manager Session) (o : Option (Manager Session)) (b : Bar)
      → ((m : Manager Session) → perform ops c m ≡ call m)
      → follow c b ≡ b
      → Follows o b
      → Follows (Option.map call o) (follow c b)
  Follows-callback c call none b e same f = same ∙ f
  Follows-callback c call (some m) b e same f =
      subst (λ u. Follows (some u) (follow c b)) (e m) (Follows-perform ops toggle_pty c m b f)

  Follows-on_data :
      (payload : Bytes) (hub : Hub Session) (b : Bar)
      → Follows hub.manager b
      → Follows (on_data ops toggle_pty payload hub).manager b
  unfolding on_data follow
  Follows-on_data payload hub b f =
      if-elim {A = Hub Session} (λ u. Follows u.manager b) hub.registered
        (Follows-callback (keys_typed payload) (write_input ops payload) hub.manager b
          (λ m. unfold perform in refl) refl f)
        f

  Follows-on_resize :
      (cols rows : ℤ) (hub : Hub Session) (b : Bar)
      → Follows hub.manager b
      → Follows (on_resize ops toggle_pty cols rows hub).manager b
  unfolding on_resize follow
  Follows-on_resize cols rows hub b f =
      if-elim {A = Hub Session} (λ u. Follows u.manager b) hub.registered
        (Follows-callback (resized cols rows) (resize ops cols rows) hub.manager b
          (λ m. unfold perform in refl) refl f)
        f

  Follows-obey :
      (control : Control) (payload : Bytes) (hub : Hub Session) (b : Bar)
      → Follows hub.manager b
      → (hub' : Hub Session) × (obey ops toggle_pty control hub ≡ some hub')
        × Follows hub'.manager (follow_all (calls_of_control (some control) payload) b)
  unfolding obey follow_all
  Follows-obey (fit cols rows) payload hub b f =
      (_, refl, unfold follow in Follows-on_resize cols rows hub b f)
  Follows-obey (tabs action) payload hub b f =
      let (m, found, f') = Follows-get_manager ops toggle_pty hub.manager b f in
      (
        send_state ops toggle_pty hub (perform_tab ops toggle_pty action m),
        rw found refl,
        Follows-perform_tab ops toggle_pty action m b f',
      )
  Follows-obey toggle payload hub b f =
      let (m, found, f') = Follows-get_manager ops toggle_pty hub.manager b f in
      (
        record hub { manager = some (toggle_active ops toggle_pty m.active m) },
        rw found refl,
        Follows-toggle_active ops toggle_pty m.active m b f',
      )

  module _ (python : Python) where
    Follows-handled :
        (o : Option Control) (payload : Bytes) (hub : Hub Session) (b : Bar)
        → Follows hub.manager b
        → Follows
            (or_input ops toggle_pty (obeyed ops toggle_pty o hub) payload hub).manager
            (follow_all (calls_of_control o payload) b)
    Follows-handled none payload hub b f =
        unfold follow_all follow in Follows-on_data payload hub b f
    Follows-handled (some control) payload hub b f =
        let (hub', done, f') = Follows-obey control payload hub b f in rw done f'

    Follows-message :
        (payload : Bytes) (hub : Hub Session) (b : Bar)
        → Follows hub.manager b
        → Follows
            (handle_client_message ops toggle_pty python payload hub).manager
            (follow_all (calls_of_message python payload) b)
    unfolding handle_client_message
    Follows-message payload hub b f =
        let control = control_of python payload in
        let K : List Call → Type 0 = λ calls.
          Follows (or_input ops toggle_pty (obeyed ops toggle_pty control hub) payload hub).manager
            (follow_all calls b) in
        subst K (calls_of_control-control_of python payload)
          (Follows-handled control payload hub b f)

    -- Messages that a client sends while the manager shows a tab strip, or has not been used yet, leave
    -- a valid manager with the tabs, the tab on screen and the counter of the strip that follows what
    -- they ask for by the names of their actions, until the client closes or a pong cannot be sent: a
    -- new tab, a switch or the end of a tab, while keystrokes, sizes, toggles and messages that cannot
    -- be read move no tab; and its pings are answered in order until then.
    pub message_loop-Follows :
        (sends : List (ℕ × Bytes) → Bool) (frames : List (ℕ × Bytes)) (hub : Hub Session) (b : Bar)
        → Follows hub.manager b
        → Follows
            (message_loop ops toggle_pty python sends frames hub).0.manager
            (follow_all (calls_of sends python frames) b)
          × ((message_loop ops toggle_pty python sends frames hub).1 ≡ pongs sends frames)
    unfolding message_loop calls_of pongs
    message_loop-Follows sends [] hub b f = unfold follow_all in (f, refl)
    message_loop-Follows sends ((opcode, payload) ∷ frames) hub b f =
        let (g, answers) = message_loop-Follows sends frames hub b f in
        elim (Bool-cases (opcode == 8)) [
          | inl close ↦ rw close (unfold follow_all in (f, refl))
          | inr open8 ↦ elim (Bool-cases (opcode == 9)) [
            | inl ping ↦ elim (Bool-cases (sends frames)) [
              | inl sent ↦ rw (open8, ping, sent) (g, ap (◌∷◌ (10, payload)) answers)
              | inr lost ↦ rw (open8, ping, lost) (unfold follow_all in (f, refl))
            ]
            | inr other ↦ elim (Bool-cases (opcode == 1 || opcode == 2)) [
              | inl data_frame ↦
                  let b' = follow_all (calls_of_message python payload) b in
                  let (g', answers') =
                    message_loop-Follows sends frames
                      (handle_client_message ops toggle_pty python payload hub) b'
                      (Follows-message payload hub b f) in
                  rw
                    (
                      open8,
                      other,
                      data_frame,
                      follow_all-append (calls_of_message python payload)
                          (calls_of sends python frames) b,
                    )
                    (g', answers')
              | inr skipped ↦ rw (open8, other, skipped) (g, answers)
            ]
          ]
        ]
