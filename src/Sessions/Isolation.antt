-- ===== src/Sessions/Isolation.antt =====
-- Input and geometry reach the tab on screen, and no other.
use zabawheels.Prelude.Int.{ℤ, is_positive}
use zabawheels.Prelude.{
  ◌≡◌, refl, sym, ap, ◌∙◌, true, false, ◌||◌, not, Option, none, some, List, Bytes, Text, bytes_eq,
  if◌then◌else◌, if-elim, Option-cases, inl, inr,
}
use zabawheels.Sessions.{
  SessionOps, Manager, is_active, emit_for, put_session, input_to, input_at, write_input, resize_to,
  resize_at, resize,
}
use zabawheels.Prelude.Dict.{has_id, lookup}
use zabawheels.Prelude.Dict.{lookup-has_id, lookup-insert}
use zabawheels.Sessions.Valid.{IsValid, emit_for-IsValid, put_session-IsValid}

module _ (ops : SessionOps) where
  open ops use {Session}

  lookup-emit_for :
      (id other : Text) (outs : List Bytes) (m : Manager Session)
      → lookup other (emit_for id outs m).sessions ≡ lookup other m.sessions
  unfolding emit_for
  lookup-emit_for id other outs m =
      if-elim {A = Manager Session} (λ u. lookup other u.sessions ≡ lookup other m.sessions) _ refl
        refl

  lookup-put_session :
      (id other : Text) (s : Session) (m : Manager Session)
      → bytes_eq id other ≡ false
      → lookup other (put_session id s m).sessions ≡ lookup other m.sessions
  unfolding put_session
  lookup-put_session id other s m ne =
      lookup-insert id other s m.sessions
      ∙ ap (λ b. if b then some s else lookup other m.sessions) ne

  input_at-other :
      (active : Option Text) (bytes : Bytes) (other : Text) (m : Manager Session)
      → is_active active other ≡ false
      → lookup other (input_at ops active bytes m).sessions ≡ lookup other m.sessions
  unfolding input_at input_to is_active
  input_at-other none bytes other m ne = refl
  input_at-other (some a) bytes other m ne = elim (Option-cases (lookup a m.sessions)) [
    | inl absent ↦ rw absent
    | inr (session, found) ↦
        let (session', outs) = ops.write_input bytes session in
        rw (found, lookup-emit_for a other outs (put_session a session' m))
          (lookup-put_session a other session' m ne)
  ]

  resize_at-other :
      (active : Option Text) (other : Text) (m : Manager Session)
      → is_active active other ≡ false
      → lookup other (resize_at ops active m).sessions ≡ lookup other m.sessions
  unfolding resize_at resize_to is_active
  resize_at-other none other m ne = refl
  resize_at-other (some a) other m ne = elim (Option-cases (lookup a m.sessions)) [
    | inl absent ↦ rw absent
    | inr (session, found) ↦
        rw found (lookup-put_session a other (ops.resize m.cols m.rows session) m ne)
  ]

  -- Keystrokes and a new geometry leave every session that is not on screen as it was.
  pub background_untouched :
      (bytes : Bytes) (columns lines : ℤ) (other : Text) (m : Manager Session)
      → is_active m.active other ≡ false
      → (lookup other (write_input ops bytes m).sessions ≡ lookup other m.sessions)
        × (lookup other (resize ops columns lines m).sessions ≡ lookup other m.sessions)
  unfolding write_input resize
  background_untouched bytes columns lines other m ne = (
    input_at-other m.active bytes other m ne,
    if-elim {A = Manager Session} (λ u. lookup other u.sessions ≡ lookup other m.sessions) _ refl
        (resize_at-other m.active other (record m { cols = columns; rows = lines }) ne),
  )

  table_has :
      (a : Text) (m : Manager Session) {session : Session}
      → IsValid m
      → lookup a m.sessions ≡ some session
      → has_id a m.order ≡ true
  table_has a m v found = ap (has_id a) (sym v.same_keys) ∙ lookup-has_id a m.sessions found

  input_at-IsValid :
      (active : Option Text) (bytes : Bytes) (m : Manager Session)
      → IsValid m
      → IsValid (input_at ops active bytes m)
  unfolding input_at input_to
  input_at-IsValid none bytes m v = v
  input_at-IsValid (some a) bytes m v = elim (Option-cases (lookup a m.sessions)) [
    | inl absent ↦ rw absent v
    | inr (session, found) ↦
        let (session', outs) = ops.write_input bytes session in
        rw found
          (emit_for-IsValid a outs (put_session-IsValid a session' (table_has a m v found) v))
  ]

  pub write_input-IsValid :
      (bytes : Bytes) (m : Manager Session) → IsValid m → IsValid (write_input ops bytes m)
  unfolding write_input
  write_input-IsValid bytes m = input_at-IsValid m.active bytes m

  resize_at-IsValid :
      (active : Option Text) (m : Manager Session) → IsValid m → IsValid (resize_at ops active m)
  unfolding resize_at resize_to
  resize_at-IsValid none m v = v
  resize_at-IsValid (some a) m v = elim (Option-cases (lookup a m.sessions)) [
    | inl absent ↦ rw absent v
    | inr (session, found) ↦ rw found (put_session-IsValid a _ (table_has a m v found) v)
  ]

  pub resize-IsValid :
      (columns lines : ℤ) (m : Manager Session) → IsValid m → IsValid (resize ops columns lines m)
  unfolding resize
  resize-IsValid columns lines m v =
      if-elim IsValid (not (is_positive columns) || not (is_positive lines)) v (
        resize_at-IsValid m.active (record m { cols = columns; rows = lines })
          (record {
            same_keys = v.same_keys;
            distinct = v.distinct;
            issued = v.issued;
            shown = v.shown;
            capped = v.capped;
          }))
