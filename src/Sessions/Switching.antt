-- ===== src/Sessions/Switching.antt =====
-- `switch`, and the repaint of the screen that it makes.
use zabawheels.Prelude.{
  ◌≤◌, ◌≡◌, refl, sym, ap, ◌∙◌, true, false, some, Text, length, if◌then◌else◌, if-elim, if-elim_eq,
  Option-cases, inl, inr,
}
use zabawheels.Sessions.{
  SessionOps, Manager, max_sessions, is_active, put_session, show_session, switch_found, switch,
}
use zabawheels.Prelude.Dict.{has_id, lookup}
use zabawheels.Prelude.Dict.{Distinct, keys, lookup-has_id, lookup-none}
use zabawheels.Sessions.Valid.{
  AllIssued, IsValid, is_active-eq, broadcasts-IsValid, active-replay, replay-IsValid,
  put_session-IsValid,
}

module _ (ops : SessionOps) where
  open ops use {Session}

  pub show_session-IsValid :
      (id : Text) (session : Session) (m : Manager Session)
      → has_id id m.order ≡ true
      → IsValid (record m { active = some id })
      → IsValid (show_session ops id session m)
  unfolding show_session
  show_session-IsValid id session m there v =
      let shown = record m { active = some id } in
      let repainted =
        put_session-IsValid id (ops.resize m.cols m.rows session) {m = shown} there v in
      replay-IsValid (ops.scrollback (ops.resize m.cols m.rows session))
        (broadcasts-IsValid _ repainted)

  -- Another tab of a valid manager on screen.
  pub shown-IsValid :
      (id : Text) (m : Manager Session)
      → keys m.sessions ≡ m.order
      → Distinct m.order
      → AllIssued m.counter m.order
      → length m.order ≤ max_sessions
      → has_id id m.order ≡ true
      → IsValid (record m { active = some id })
  shown-IsValid id m k d i c there = record {
    same_keys = k;
    distinct = d;
    issued = i;
    shown = there;
    capped = c;
  }

  pub active-show_session :
      (id : Text) (session : Session) (m : Manager Session)
      → (show_session ops id session m).active ≡ some id
  unfolding show_session put_session
  active-show_session id session m = active-replay _ _

  switch_found-IsValid :
      (id : Text) (session : Session) (m : Manager Session)
      → has_id id m.order ≡ true
      → IsValid m
      → IsValid (switch_found ops id (some session) m).0
        × ((switch_found ops id (some session) m).1 ≡ true)
        × ((switch_found ops id (some session) m).0.active ≡ some id)
  unfolding switch_found
  switch_found-IsValid id session m there v =
      let again = shown-IsValid id m v.same_keys v.distinct v.issued v.capped there in
      (
        if-elim IsValid (is_active m.active id) v (show_session-IsValid id session m there again),
        refl,
        if-elim_eq {A = Manager Session} (λ u. u.active ≡ some id) (is_active m.active id)
            (is_active-eq m.active id) (λ other. active-show_session id session m),
      )

  -- Switching keeps the manager valid and answers whether the tab is there; the tab on screen is then
  -- the one asked for if it is there, and the same as before if not.
  pub switch-IsValid :
      (id : Text) (m : Manager Session)
      → IsValid m
      → IsValid (switch ops id m).0
        × ((switch ops id m).1 ≡ has_id id m.order)
        × ((switch ops id m).0.active ≡ (if has_id id m.order then some id else m.active))
  unfolding switch
  switch-IsValid id m v = elim (Option-cases (lookup id m.sessions)) [
    | inl absent ↦
        let miss : has_id id m.order ≡ false =
          ap (has_id id) (sym v.same_keys) ∙ lookup-none id m.sessions absent in
        rw (absent, miss) (unfold switch_found in (v, refl, refl))
    | inr (session, found) ↦
        let there : has_id id m.order ≡ true =
          ap (has_id id) (sym v.same_keys) ∙ lookup-has_id id m.sessions found in
        rw (found, there) (switch_found-IsValid id session m there v)
  ]
