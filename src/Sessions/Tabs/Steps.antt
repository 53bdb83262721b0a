-- ===== src/Sessions/Tabs/Steps.antt =====
-- The calls of the manager of app/zmux/sessions.py, one by one, against the tab strip.
use mathlib.Core.Option.{some-injective}
use zabawheels.Prelude.Decimal.{str}
use zabawheels.Prelude.Dict.{has_id, insert, lookup, lookup-has_id, lookup-none}
use zabawheels.Prelude.{
  ℕ, ◌+◌, bytes_eq_refl, ◌≡◌, refl, sym, ap, ◌∙◌, subst, Bool, true, false, Option, none, some, [],
  ◌∷◌, ◌++◌, Text, length, leb, if-elim_eq, Option-cases, Bool-cases, inl, inr,
}
use zabawheels.Sessions.{
  SessionOps, Manager, reset_terminal_screen, max_sessions, is_active, put_session, enter_tables,
  add_session, create, show_session, switch_found, switch,
}
use zabawheels.Sessions.Valid.{IsValid, is_active-eq}
use zabawheels.Sessions.History.{new, switch_to, perform}
use zabawheels.Sessions.Tabs.{Strip, Bar, onto, row, seek, or_stay, add_next, follow}
use zabawheels.Sessions.Tabs.Rows.{onto-append, onto-onto, seek-some, seek-none, seek-absent}
use zabawheels.Sessions.Tabs.Shown.{
  Shows, Shows-same, SameTabs-emit_for, SameTabs-replay, length-sessions,
}

module _ (ops : SessionOps) where
  open ops use {Session}

  switch_found-same :
      (id : Text) (o : Option Session) (m : Manager Session)
      → m.active ≡ some id
      → (switch_found ops id o m).0 ≡ m
  unfolding switch_found
  switch_found-same id none m lit = refl
  switch_found-same id (some session) m lit =
      let seen : is_active m.active id ≡ true =
        ap (λ a. is_active a id) lit ∙ unfold is_active in bytes_eq_refl id in
      rw seen refl

  pub Shows-show_session :
      (id : Text) (session : Session) (m : Manager Session) {b : Bar}
      → Shows (record m { active = some id }) b
      → Shows (show_session ops id session m) b
  unfolding show_session
  Shows-show_session id session m s =
      let resized = record m {
        active = some id;
        sessions = insert id (ops.resize m.cols m.rows session) m.sessions;
        broadcasts = m.broadcasts ++ reset_terminal_screen ∷ [];
      } in
      Shows-same {m = resized}
        (unfold put_session in
          SameTabs-replay (ops.scrollback (ops.resize m.cols m.rows session)) resized)
        (record { order = s.order; active = s.active; counter = s.counter })

  Shows-enter_tables :
      (activate : Bool) (m : Manager Session) (b : Bar)
      → Shows m b
      → Shows (enter_tables ops activate (str (m.counter + 1)) m) (add_next activate b)
  unfolding enter_tables
  Shows-enter_tables true m b s = record {
    order =
        rw
          (
            s.order,
            s.counter,
            onto-append b.strip.left (b.strip.here ∷ b.strip.right) (str (b.given_out + 1) ∷ []),
          )
          (sym
            (onto-onto (b.strip.here ∷ b.strip.right) b.strip.left (str (b.given_out + 1) ∷ [])));
    active = ap (λ n. some (str (n + 1))) s.counter;
    counter = ap (λ n. n + 1) s.counter;
  }
  Shows-enter_tables false m b s = record {
    order =
        rw (s.order, s.counter)
          (onto-append b.strip.left (b.strip.here ∷ b.strip.right) (str (b.given_out + 1) ∷ []));
    active = rw s.active refl;
    counter = ap (λ n. n + 1) s.counter;
  }

  -- What the session writes when it starts leaves the strip alone.
  Shows-started :
      (activate : Bool) (id : Text) (m : Manager Session) {b : Bar}
      → Shows (enter_tables ops activate id m) b
      → Shows (add_session ops activate id m) b
  unfolding add_session
  Shows-started activate id m {b} e =
      let (started, outs) = ops.start (ops.resize m.cols m.rows ops.fresh) in
      let entered = put_session id started (enter_tables ops activate id m) in
      let put : Shows entered b =
        unfold put_session in record { order = e.order; active = e.active; counter = e.counter } in
      Shows-same (SameTabs-emit_for id outs entered) put

  -- A new tab that was asked for comes on screen.
  pub active-create :
      (m m' : Manager Session)
      → create ops true m ≡ some m'
      → m'.active ≡ some (str (m.counter + 1))
  unfolding create
  active-create m m' made =
      let id = str (m.counter + 1) in
      let (started, outs) = ops.start (ops.resize m.cols m.rows ops.fresh) in
      let entered = put_session id started (enter_tables ops true id m) in
      let lit : (add_session ops true id m).active ≡ some id =
        unfold add_session in
        (let (o, a, c) = SameTabs-emit_for id outs entered in
          a ∙ unfold put_session enter_tables in refl) in
      elim (Bool-cases (leb max_sessions (length m.sessions))) [
        | inl full ↦
            let e : ◌≡◌ {A = Option (Manager Session)} none (some m') = sym (rw full refl) ∙ made in
            cc e
        | inr room ↦
            let e : some (add_session ops true id m) ≡ some m' = sym (rw room refl) ∙ made in
            ap (λ u. u.active) (sym (some-injective (add_session ops true id m) m' e)) ∙ lit
      ]

  -- To switch to the tab on screen does nothing.
  pub switch-same : (id : Text) (m : Manager Session) → m.active ≡ some id → (switch ops id m).0 ≡ m
  unfolding switch
  switch-same id m lit = switch_found-same id (lookup id m.sessions) m lit

  -- The first tab, or the one that follows the last.
  pub Shows-renewed :
      (m : Manager Session) (n : ℕ)
      → m.sessions ≡ []
      → m.order ≡ []
      → m.counter ≡ n
      → (m' : Manager Session) × (create ops true m ≡ some m')
        × Shows m' (record {
          strip = record { left = []; here = str (n + 1); right = [] };
          given_out = n + 1;
        })
  unfolding create
  Shows-renewed m n none_left bare c =
      let id = str (m.counter + 1) in
      let alone : Shows (enter_tables ops true id m) (record {
        strip = record { left = []; here = str (n + 1); right = [] };
        given_out = n + 1;
      }) =
        unfold enter_tables onto in
        record {
          order = rw (bare, c) refl;
          active = ap (λ k. some (str (k + 1))) c;
          counter = ap (λ k. k + 1) c;
        } in
      (add_session ops true id m, rw none_left refl, Shows-started true id m alone)

  -- At eight tabs neither gains one.
  pub Shows-new :
      (activate : Bool) (m : Manager Session) (b : Bar)
      → IsValid m
      → Shows m b
      → Shows (perform ops (new activate) m) (follow (new activate) b)
  unfolding perform follow create
  Shows-new activate m b v s = elim (Bool-cases (leb max_sessions (length (row b.strip)))) [
    | inl full ↦ rw (length-sessions m b v s, full) s
    | inr room ↦
        rw (length-sessions m b v s, room)
          (Shows-started activate (str (m.counter + 1)) m (Shows-enter_tables activate m b s))
  ]

  Shows-hand :
      (id : Text) (m : Manager Session) (b : Bar) {strip : Strip}
      → Shows m b
      → seek id [] (row b.strip) ≡ some strip
      → Shows (record m { active = some id }) (record b { strip = strip })
  Shows-hand id m b s found =
      let (laid, there) = seek-some id [] (row b.strip) found in
      record {
        order = s.order ∙ sym (laid ∙ unfold onto in refl);
        active = ap some (sym there);
        counter = s.counter;
      }

  Shows-switch_found :
      (id : Text) (session : Session) (m : Manager Session) (b : Bar) {strip : Strip}
      → Shows m b
      → seek id [] (row b.strip) ≡ some strip
      → Shows (switch_found ops id (some session) m).0 (record b { strip = strip })
  unfolding switch_found
  Shows-switch_found id session m b {strip} s found =
      let moved = Shows-hand id m b s found in
      if-elim_eq {A = Manager Session} (λ u. Shows u (record b { strip = strip }))
        (is_active m.active id)
        (λ same. record {
          order = moved.order;
          active = is_active-eq m.active id same ∙ moved.active;
          counter = s.counter;
        })
        (λ other. Shows-show_session id session m moved)

  Shows-sought :
      (id : Text) (session : Session) (m : Manager Session) (b : Bar) (o : Option Strip)
      → Shows m b
      → seek id [] (row b.strip) ≡ o
      → has_id id (row b.strip) ≡ true
      → Shows (switch_found ops id (some session) m).0 (record b { strip = or_stay o b.strip })
  Shows-sought id session m b none s e there = cc (there, seek-none id [] (row b.strip) e)
  Shows-sought id session m b (some strip) s e there = Shows-switch_found id session m b s e

  pub Shows-switch_to :
      (id : Text) (m : Manager Session) (b : Bar)
      → IsValid m
      → Shows m b
      → Shows (perform ops (switch_to id) m) (follow (switch_to id) b)
  unfolding perform follow switch
  Shows-switch_to id m b v s =
      let there = ap (has_id id) (sym s.order ∙ sym v.same_keys) in
      let K : Option Session → Type 0 =
        λ o. Shows (switch_found ops id o m).0 (follow (switch_to id) b) in
      elim (Option-cases (lookup id m.sessions)) [
        | inl absent ↦
            let miss = seek-absent id [] (row b.strip) (there ∙ lookup-none id m.sessions absent) in
            subst K (sym absent) (unfold switch_found in rw miss s)
        | inr (session, found) ↦ subst K (sym found) (
            Shows-sought id session m b (seek id [] (row b.strip)) s refl
              (there ∙ lookup-has_id id m.sessions found))
      ]
