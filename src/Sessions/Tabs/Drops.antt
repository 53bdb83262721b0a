-- ===== src/Sessions/Tabs/Drops.antt =====
-- Closing a tab of app/zmux/sessions.py, against the tab strip.
use zabawheels.Prelude.Dict.{
  has_id, remove, lookup, keys, Distinct, lookup-has_id, has_id-lookup, lookup-none,
}
use zabawheels.Prelude.{
  ℕ, ◌≡◌, refl, sym, ap, ap₂, ◌∙◌, subst, true, false, ◌||◌, Option, none, some, List, [], ◌∷◌,
  arith, Text, bytes_eq, bytes_eq_iff, bytes_eq_refl, length, Option-cases, Bool-cases, inl, inr,
}
use zabawheels.Sessions.{
  SessionOps, Manager, is_active, index_of, emit_for, show_session, switch_found, switch, take_out,
  reopen, close_found, close,
}
use zabawheels.Sessions.Valid.{IsValid, emit_for-IsValid}
use zabawheels.Sessions.Closing.{take_out-IsValid, close-absent}
use zabawheels.Sessions.History.{close_tab, perform, or_same_pair}
use zabawheels.Sessions.Tabs.{Bar, onto, row, except, drop_here, drop_tab, follow}
use zabawheels.Sessions.Tabs.Rows.{has_id-onto, except-onto, except-absent, remove-except}
use zabawheels.Sessions.Tabs.Shown.{Shows, SameTabs-emit_for}
use zabawheels.Sessions.Tabs.Steps.{Shows-renewed, Shows-show_session}
use zabawheels.Sessions.Tabs.Neighbour.{
  remove-here, index_of-here, neighbour, keys-empty, or_false, successor-neighbour,
}

module _ (ops : SessionOps) where
  open ops use {Session}

  -- The tab with the hand on it comes on screen again.
  reopened :
      (left : List Text) (y : Text) (right : List Text) (u : Manager Session) (n : ℕ)
      → IsValid u
      → u.order ≡ onto left (y ∷ right)
      → u.counter ≡ n
      → (m' : Manager Session) × (reopen ops true (some y) u ≡ some m')
        × Shows m'
            (record { strip = record { left = left; here = y; right = right }; given_out = n })
  unfolding reopen
  reopened left y right u n v e c =
      let there : has_id y (keys u.sessions) ≡ true =
        ap (has_id y) (v.same_keys ∙ e)
        ∙ has_id-onto y left (y ∷ right)
        ∙ unfold has_id in ground (arith, bytes_eq_refl y) in
      let (session, found) = has_id-lookup y u.sessions there in
      let dark = record u { active = none } in
      (
        show_session ops y session dark,
        unfold switch switch_found is_active in rw found refl,
        Shows-show_session ops y session dark (record { order = e; active = refl; counter = c }),
      )

  -- What follows when the tab under the hand has gone.
  reopen_next :
      (left right : List Text) (u : Manager Session) (n : ℕ)
      → IsValid u
      → u.order ≡ onto left right
      → u.counter ≡ n
      → (m' : Manager Session) × (reopen ops true (neighbour left right) u ≡ some m')
        × Shows m' (drop_here left right n)
  unfolding drop_here
  reopen_next left (y ∷ right) u n v e c = reopened left y right u n v e c
  reopen_next (y ∷ left) [] u n v e c = reopened left y [] u n v (unfold onto in e) c
  reopen_next [] [] u n v e c =
      let bare : u.order ≡ [] = unfold onto in e in
      unfold reopen in Shows-renewed ops u n (keys-empty u.sessions (v.same_keys ∙ bare)) bare c

  -- What has left the tables, once the session has stopped.
  abbrev stopped : Text → Session → Manager Session → Manager Session
  stopped id session m = emit_for id (ops.stop session) (take_out ops id m)

  closed :
      (id : Text) (session : Session) (m : Manager Session) (b : Bar)
      → lookup id m.sessions ≡ some session
      → (m' : Manager Session) × (reopen ops
            (is_active m.active id)
            (stopped id session m).active
            (stopped id session m)
          ≡ some m')
        × Shows m' b
      → Shows (perform ops (close_tab id) m) b
  unfolding perform close
  closed id session m b found (m', done, s) =
      let K : Option Session → Type 0 =
        λ o. Shows (or_same_pair ops (close_found ops id o m) m) b in
      subst K (sym found) (unfold close_found in rw done s)

  -- Closing the tab under the hand.
  drop_shown :
      (id : Text) (session : Session) (m : Manager Session) (b : Bar)
      → IsValid m
      → Shows m b
      → has_id id m.order ≡ true
      → b.strip.here ≡ id
      → (m' : Manager Session) × (reopen ops true
            (stopped id session m).active
            (stopped id session m)
          ≡ some m')
        × Shows m' (drop_here b.strip.left b.strip.right b.given_out)
  drop_shown id session m b v s there same =
      let d : Distinct (row b.strip) = subst Distinct s.order v.distinct in
      let lit : is_active m.active id ≡ true =
        ap (λ a. is_active a id) s.active
        ∙ unfold is_active in (ap (λ x. bytes_eq x id) same ∙ bytes_eq_refl id) in
      let (o, a, c) = SameTabs-emit_for id (ops.stop session) (take_out ops id m) in
      let left_over : remove id m.order ≡ onto b.strip.left b.strip.right =
        ap₂ remove (sym same) s.order ∙ remove-here b.strip d in
      let place : index_of id m.order ≡ length b.strip.left =
        ap₂ index_of (sym same) s.order ∙ index_of-here b.strip d in
      let next : (stopped id session m).active ≡ neighbour b.strip.left b.strip.right =
        a
        ∙ unfold take_out in
          rw (lit, left_over, place) (successor-neighbour ops b.strip.left b.strip.right) in
      let K : Option Text → Type 0 = λ o.
        (m' : Manager Session) × (reopen ops true o (stopped id session m) ≡ some m')
        × Shows m' (drop_here b.strip.left b.strip.right b.given_out) in
      subst K (sym next) (
        reopen_next b.strip.left b.strip.right (stopped id session m) b.given_out
          (emit_for-IsValid id (ops.stop session) (take_out-IsValid ops id m there v))
          (o ∙ unfold take_out in left_over) (c ∙ unfold take_out in s.counter))

  -- Closing another tab.
  drop_hidden :
      (id : Text) (session : Session) (m : Manager Session) (b : Bar)
      → IsValid m
      → Shows m b
      → bytes_eq b.strip.here id ≡ false
      → (m' : Manager Session) × (reopen ops false
            (stopped id session m).active
            (stopped id session m)
          ≡ some m')
        × Shows m' (record b {
          strip = record b.strip { left = except id b.strip.left; right = except id b.strip.right };
        })
  drop_hidden id session m b v s other =
      let d : Distinct (row b.strip) = subst Distinct s.order v.distinct in
      let dark : is_active m.active id ≡ false =
        ap (λ a. is_active a id) s.active ∙ unfold is_active in other in
      let (o, a, c) = SameTabs-emit_for id (ops.stop session) (take_out ops id m) in
      let lit : (stopped id session m).active ≡ some b.strip.here =
        a ∙ unfold take_out in rw dark s.active in
      let rest : except id (b.strip.here ∷ b.strip.right) ≡ b.strip.here ∷ except id b.strip.right =
        unfold except in rw other refl in
      let left_over : remove id m.order
          ≡ onto (except id b.strip.left) (b.strip.here ∷ except id b.strip.right) =
        ap (remove id) s.order
        ∙ remove-except id (row b.strip) d
        ∙ except-onto id b.strip.left (b.strip.here ∷ b.strip.right)
        ∙ ap (onto (except id b.strip.left)) rest in
      (
        stopped id session m,
        unfold reopen in rw lit refl,
        record {
          order = o ∙ unfold take_out in left_over;
          active = lit;
          counter = c ∙ unfold take_out in s.counter;
        },
      )

  drop_present :
      (id : Text) (session : Session) (m : Manager Session) (b : Bar)
      → IsValid m
      → Shows m b
      → lookup id m.sessions ≡ some session
      → Shows (perform ops (close_tab id) m) (follow (close_tab id) b)
  unfolding follow drop_tab
  drop_present id session m b v s found =
      let there = ap (has_id id) (sym v.same_keys) ∙ lookup-has_id id m.sessions found in
      let seen : is_active m.active id ≡ bytes_eq b.strip.here id =
        ap (λ a. is_active a id) s.active ∙ unfold is_active in refl in
      elim (Bool-cases (bytes_eq b.strip.here id)) [
        | inl same ↦
            let e = (bytes_eq_iff b.strip.here id).0 same in
            rw same (
              closed id session m _ found (rw (seen, same) (drop_shown id session m b v s there e)))
        | inr other ↦
            rw other (
              closed id session m _ found (rw (seen, other) (drop_hidden id session m b v s other)))
      ]

  -- Closing a tab that is not there.
  drop_absent :
      (id : Text) (m : Manager Session) (b : Bar)
      → IsValid m
      → Shows m b
      → has_id id m.order ≡ false
      → Shows (perform ops (close_tab id) m) (follow (close_tab id) b)
  unfolding perform follow drop_tab
  drop_absent id m b v s missing =
      let nowhere : (has_id id b.strip.left || has_id id (b.strip.here ∷ b.strip.right)) ≡ false =
        sym (has_id-onto id b.strip.left (b.strip.here ∷ b.strip.right))
        ∙ sym (ap (has_id id) s.order)
        ∙ missing in
      let (left, rest) =
        or_false {a = has_id id b.strip.left} {b = has_id id (b.strip.here ∷ b.strip.right)}
          nowhere in
      let (other, right) =
        or_false {a = bytes_eq b.strip.here id} {b = has_id id b.strip.right}
          (unfold has_id in rest) in
      rw
        (
          close-absent ops id m v missing,
          other,
          except-absent id b.strip.left left,
          except-absent id b.strip.right right,
        )
        s

  pub Shows-close_tab :
      (id : Text) (m : Manager Session) (b : Bar)
      → IsValid m
      → Shows m b
      → Shows (perform ops (close_tab id) m) (follow (close_tab id) b)
  Shows-close_tab id m b v s = elim (Option-cases (lookup id m.sessions)) [
    | inl absent ↦
        drop_absent id m b v s (ap (has_id id) (sym v.same_keys) ∙ lookup-none id m.sessions absent)
    | inr (session, found) ↦ drop_present id session m b v s found
  ]
