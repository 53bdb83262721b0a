-- ===== src/Web/Messages/Asked.antt =====
-- What a message asks for (app/zmux/ws_server.py), and what a tab command does to the tabs (app/zmux/sessions.py).
use mathlib.Core.Option
use zabawheels.Prelude.Optional.{◌>>=◌}
use zabawheels.Prelude.Int.{pos}
use zabawheels.Prelude.Json.{Json, null, number, is_text}
use zabawheels.Prelude.Decimal.{str}
use zabawheels.Prelude.Dict.{has_id, lookup, lookup-has_id}
use zabawheels.Prelude.{
  ℕ, ◌+◌, ◌≡◌, refl, sym, ap, ◌∙◌, subst, Bool, true, false, ◌||◌, Option, none, some, List, [],
  ◌∷◌, ◌++◌, Bytes, Text, codes, ◌==◌, if◌then◌else◌,
}
use zabawheels.Sessions.{SessionOps, Manager, put_session, create, close, get_manager, broadcast}
use zabawheels.Sessions.Valid.{IsValid, broadcasts-IsValid, emit_for-IsValid, put_session-IsValid}
use zabawheels.Sessions.History.{
  Call, new, switch_to, close_tab, keys_typed, resized, or_same, or_same_pair, perform,
  perform-IsValid,
}
use zabawheels.Sessions.Tabs.{Bar, first_bar, follow, follow_all}
use zabawheels.Sessions.Tabs.Shown.{Shows, Shows-same, SameTabs-emit_for}
use zabawheels.Sessions.Tabs.Steps.{active-create, switch-same}
use zabawheels.Sessions.Tabs.Refinement.{Shows-perform, get_manager-first}
use zabawheels.Web.Messages.{
  Python, TabAction, tab_new, tab_switch, tab_close, tab_list, Control, fit, tabs, toggle,
  get_or_default, int_of, id_of, fit_of, action_of, is_braced, control_of, limit_notice, open_tab,
  shut_tab, perform_tab, toggle_in, toggle_active,
}

-- The calls that a control action stands for.
abbrev pub calls_of_tab : TabAction → List Call
calls_of_tab tab_new = new true ∷ []
calls_of_tab (tab_switch id) = switch_to id ∷ []
calls_of_tab (tab_close id) = close_tab id ∷ []
calls_of_tab tab_list = []

abbrev pub calls_of_control : Option Control → Bytes → List Call
calls_of_control none payload = keys_typed payload ∷ []
calls_of_control (some (fit cols rows)) payload = resized cols rows ∷ []
calls_of_control (some (tabs action)) payload = calls_of_tab action
calls_of_control (some toggle) payload = []

-- What the actions mean, by their names: the calls, or none where an exception is swallowed.
abbrev meanings : Python → List (Text × (Json → Option (List Call)))
meanings python =
    (
      codes "resize",
      λ fields. do
        columns ← get_or_default (codes "cols") (number (pos 80)) fields
        cols ← int_of python columns
        lines ← get_or_default (codes "rows") (number (pos 24)) fields
        rows ← int_of python lines
        some (resized cols rows ∷ []),
    )
    ∷ (codes "session.new", λ fields. some (new true ∷ []))
    ∷ (codes "session.switch", λ fields. Option.map (λ id. switch_to id ∷ []) (id_of python fields))
    ∷ (codes "session.close", λ fields. Option.map (λ id. close_tab id ∷ []) (id_of python fields))
    ∷ (codes "session.list", λ fields. some [])
    ∷ (codes "pty.toggle", λ fields. some [])
    ∷ []

abbrev meant : List (Text × (Json → Option (List Call))) → Json → Json → Option (List Call)
meant [] action fields = none
meant ((name, meaning) ∷ rest) action fields =
    if is_text name action then meaning fields else meant rest action fields

-- What is no action is typed.
abbrev or_keys : Option (List Call) → Bytes → List Call
or_keys none payload = keys_typed payload ∷ []
or_keys (some calls) payload = calls

-- The calls that a message asks for.
unfoldable pub calls_of_message : Python → Bytes → List Call
calls_of_message python payload =
    or_keys
      (python.decode payload >>= λ text.
        (if is_braced python text then python.loads text else none) >>= λ fields.
        get_or_default (codes "action") null fields >>= λ action.
        meant (meanings python) action fields)
      payload

-- The two readings of a message.
record Agree (payload : Bytes) (control : Option Control) (calls : Option (List Call))
    : Type 0 where
  same : calls_of_control control payload ≡ or_keys calls payload

Agree-bind :
    {A : Type 0} (payload : Bytes) (o : Option A) (f : A → Option Control)
    (g : A → Option (List Call))
    → ((a : A) → Agree payload (f a) (g a))
    → Agree payload (o >>= f) (o >>= g)
Agree-bind payload none f g h = record { same = refl }
Agree-bind payload (some a) f g h = h a

Agree-map :
    (payload : Bytes) (o : Option Text) (f : Text → TabAction) (g : Text → List Call)
    → ((id : Text) → calls_of_tab (f id) ≡ g id)
    → Agree payload (Option.map (λ id. tabs (f id)) o) (Option.map g o)
Agree-map payload none f g h = record { same = refl }
Agree-map payload (some id) f g h = record { same = h id }

Agree-if :
    (payload : Bytes) (test : Bool) (c d : Option Control) (x y : Option (List Call))
    → Agree payload c x
    → Agree payload d y
    → Agree payload (if test then c else d) (if test then x else y)
Agree-if payload true c d x y h k = h
Agree-if payload false c d x y h k = k

Agree-fit_of :
    (python : Python) (payload : Bytes) (fields : Json)
    → Agree payload (fit_of python fields) (
        get_or_default (codes "cols") (number (pos 80)) fields >>= λ columns.
        int_of python columns >>= λ cols.
        get_or_default (codes "rows") (number (pos 24)) fields >>= λ lines.
        int_of python lines >>= λ rows. some (resized cols rows ∷ []))
unfolding fit_of
Agree-fit_of python payload fields =
    Agree-bind payload (get_or_default (codes "cols") (number (pos 80)) fields) _ _ (λ columns.
      Agree-bind payload (int_of python columns) _ _ (λ cols.
        Agree-bind payload (get_or_default (codes "rows") (number (pos 24)) fields) _ _
          (λ lines. Agree-bind payload (int_of python lines) _ _ (λ rows. record { same = refl }))))

Agree-action_of :
    (python : Python) (payload : Bytes) (action fields : Json)
    → Agree payload (action_of python action fields) (meant (meanings python) action fields)
unfolding action_of
Agree-action_of python payload action fields =
    let id = id_of python fields in
    Agree-if payload (is_text (codes "resize") action) _ _ _ _ (Agree-fit_of python payload fields)
      (Agree-if payload (is_text (codes "session.new") action) (some (tabs tab_new)) _
        (some (new true ∷ [])) _ (record { same = refl })
        (Agree-if payload (is_text (codes "session.switch") action) _ _ _ _
          (Agree-map payload id tab_switch (λ id. switch_to id ∷ []) (λ id. refl))
          (Agree-if payload (is_text (codes "session.close") action) _ _ _ _
            (Agree-map payload id tab_close (λ id. close_tab id ∷ []) (λ id. refl))
            (Agree-if payload (is_text (codes "session.list") action) (some (tabs tab_list)) _
              (some []) _ (record { same = refl })
              (Agree-if payload (is_text (codes "pty.toggle") action) (some toggle) none (some [])
                none (record { same = refl }) (record { same = refl }))))))

pub calls_of_control-control_of :
    (python : Python) (payload : Bytes)
    → calls_of_control (control_of python payload) payload ≡ calls_of_message python payload
unfolding control_of calls_of_message
calls_of_control-control_of python payload =
    let agree : Agree payload
        (python.decode payload >>= λ text.
          (if is_braced python text then python.loads text else none) >>= λ fields.
          get_or_default (codes "action") null fields >>= λ action. action_of python action fields)
        (python.decode payload >>= λ text.
          (if is_braced python text then python.loads text else none) >>= λ fields.
          get_or_default (codes "action") null fields >>= λ action.
          meant (meanings python) action fields) =
      Agree-bind payload (python.decode payload) _ _ (λ text.
        Agree-bind payload (if is_braced python text then python.loads text else none) _ _
          (λ fields.
            Agree-bind payload (get_or_default (codes "action") null fields) _ _
              (λ action. Agree-action_of python payload action fields))) in
    agree.same

-- The calls that a client's frames ask for, until it closes or a pong cannot be sent.
unfoldable pub calls_of : (List (ℕ × Bytes) → Bool) → Python → List (ℕ × Bytes) → List Call
calls_of sends python [] = []
calls_of sends python ((opcode, payload) ∷ frames) =
    let rest = calls_of sends python frames in
    if opcode == 8
    then []
    else if opcode == 9
    then if sends frames then rest else []
    else if opcode == 1 || opcode == 2
    then calls_of_message python payload ++ rest
    else rest

pub follow_all-append :
    (cs ds : List Call) (b : Bar) → follow_all (cs ++ ds) b ≡ follow_all ds (follow_all cs b)
unfolding follow_all
follow_all-append [] ds b = refl
follow_all-append (c ∷ cs) ds b = follow_all-append cs ds (follow c b)

-- The answers to a client's pings, until it closes or one cannot be sent.
unfoldable pub pongs : (List (ℕ × Bytes) → Bool) → List (ℕ × Bytes) → List (ℕ × Bytes)
pongs sends [] = []
pongs sends ((opcode, payload) ∷ frames) =
    let rest = pongs sends frames in
    if opcode == 8
    then []
    else if opcode == 9
    then if sends frames then (10, payload) ∷ rest else []
    else rest

-- The manager is valid and shows the tab strip; where there is no manager yet, it will be the first
-- one.
abbrev pub Follows : {S : Type 0} → Option (Manager S) → Bar → Type 0
Follows none b = b ≡ first_bar
Follows (some m) b = IsValid m × Shows m b

module _ (ops : SessionOps) (toggle_pty : ops.Session → ops.Session × List Bytes) where
  open ops use {Session}

  pub Follows-perform :
      (c : Call) (m : Manager Session) (b : Bar)
      → Follows (some m) b
      → Follows (some (perform ops c m)) (follow c b)
  Follows-perform c m b (v, s) = (perform-IsValid ops c m v, Shows-perform ops c m b v s)

  -- The first use of the manager.
  pub Follows-get_manager :
      (o : Option (Manager Session)) (b : Bar)
      → Follows o b
      → (m : Manager Session) × (get_manager ops o ≡ some m) × Follows (some m) b
  unfolding get_manager
  Follows-get_manager none b e =
      let (m, made, v, s) = get_manager-first ops in (m, made, (v, subst (Shows m) (sym e) s))
  Follows-get_manager (some m) b f = (m, refl, f)

  pub Follows-broadcast :
      (bytes : Bytes) (m : Manager Session) (b : Bar)
      → Follows (some m) b
      → Follows (some (broadcast bytes m)) b
  Follows-broadcast bytes m b (v, s) =
      (broadcasts-IsValid (m.broadcasts ++ bytes ∷ []) v, Shows-same {m = m} (refl, refl, refl) s)

  pub Follows-open_tab :
      (o : Option (Manager Session)) (m : Manager Session) (b : Bar)
      → create ops true m ≡ o
      → Follows (some (or_same ops o m)) b
      → Follows (some (open_tab ops toggle_pty o m)) b
  unfolding open_tab
  Follows-open_tab none m b e f = Follows-broadcast limit_notice m b f
  Follows-open_tab (some m') m b e f =
      subst (λ u. Follows (some u) b)
        (sym (switch-same ops (str (m.counter + 1)) m' (active-create ops m m' e))) f

  pub Follows-shut_tab :
      (o : Option (Manager Session × Bool)) (m : Manager Session) (b : Bar)
      → Follows (some (or_same_pair ops o m)) b
      → Follows (some (shut_tab ops toggle_pty o m)) b
  unfolding shut_tab
  Follows-shut_tab none m b f = Follows-broadcast limit_notice m b f
  Follows-shut_tab (some (m', answer)) m b f = f

  pub Follows-perform_tab :
      (action : TabAction) (m : Manager Session) (b : Bar)
      → Follows (some m) b
      → Follows (some (perform_tab ops toggle_pty action m)) (follow_all (calls_of_tab action) b)
  unfolding perform_tab follow_all
  Follows-perform_tab tab_new m b f =
      Follows-open_tab (create ops true m) m (follow (new true) b) refl
        (unfold perform in Follows-perform (new true) m b f)
  Follows-perform_tab (tab_switch id) m b f = unfold perform in Follows-perform (switch_to id) m b f
  Follows-perform_tab (tab_close id) m b f =
      Follows-shut_tab (close ops id m) m (follow (close_tab id) b)
        (unfold perform in Follows-perform (close_tab id) m b f)
  Follows-perform_tab tab_list m b f = f

  pub Follows-toggle_in :
      (id : Text) (o : Option Session) (m : Manager Session) (b : Bar)
      → lookup id m.sessions ≡ o
      → Follows (some m) b
      → Follows (some (toggle_in ops toggle_pty id o m)) b
  unfolding toggle_in
  Follows-toggle_in id none m b e f = f
  Follows-toggle_in id (some session) m b e (v, s) =
      let (session', outs) = toggle_pty session in
      let there = ap (has_id id) (sym v.same_keys) ∙ lookup-has_id id m.sessions e in
      (
        emit_for-IsValid id outs (put_session-IsValid id session' there v),
        Shows-same {m = m}
            (unfold put_session in SameTabs-emit_for id outs (put_session id session' m)) s,
      )

  pub Follows-toggle_active :
      (active : Option Text) (m : Manager Session) (b : Bar)
      → Follows (some m) b
      → Follows (some (toggle_active ops toggle_pty active m)) b
  unfolding toggle_active
  Follows-toggle_active none m b f = f
  Follows-toggle_active (some a) m b f = Follows-toggle_in a (lookup a m.sessions) m b refl f
