-- ===== src/Sessions/Tabs/Shown.antt =====
-- When the manager of app/zmux/sessions.py shows a tab strip, and the steps that leave the strip alone.
use zabawheels.Prelude.Dict.{lookup, length-keys}
use zabawheels.Prelude.Int.{ℤ}
use zabawheels.Prelude.{
  ◌≡◌, refl, sym, ap, ◌∙◌, Option, none, some, List, [], ◌∷◌, Bytes, Text, length, if-elim,
}
use zabawheels.Sessions.{
  SessionOps, Manager, is_active, emit_for, put_session, replay, input_to, input_at, resize_to,
  resize_at, resize,
}
use zabawheels.Sessions.Valid.{IsValid}
use zabawheels.Sessions.Tabs.{Bar, row}

-- The manager's tables hold the tabs of the strip, in its order, and the tab on screen is the one under
-- the hand.
pub record Shows {S : Type 0} (m : Manager S) (b : Bar) : Type 0 where
  pub order : m.order ≡ row b.strip
  pub active : m.active ≡ some b.strip.here
  pub counter : m.counter ≡ b.given_out

-- What does not touch the tables does not touch the strip.
abbrev pub SameTabs : {S : Type 0} → Manager S → Manager S → Type 0
SameTabs {S} m u = (u.order ≡ m.order) × (u.active ≡ m.active) × (u.counter ≡ m.counter)

module _ {S : Type 0} where
  pub Shows-same : {m u : Manager S} {b : Bar} → SameTabs m u → Shows m b → Shows u b
  Shows-same (o, a, c) s = record {
    order = o ∙ s.order;
    active = a ∙ s.active;
    counter = c ∙ s.counter;
  }

  pub SameTabs-emit_for :
      (id : Text) (outs : List Bytes) (m : Manager S) → SameTabs m (emit_for id outs m)
  unfolding emit_for
  SameTabs-emit_for id outs m =
      if-elim (SameTabs m) (is_active m.active id) (refl, refl, refl) (refl, refl, refl)

  pub SameTabs-replay : (bytes : Bytes) (m : Manager S) → SameTabs m (replay bytes m)
  unfolding replay
  SameTabs-replay [] m = (refl, refl, refl)
  SameTabs-replay (b ∷ bytes) m = (refl, refl, refl)

  pub length-sessions :
      (m : Manager S) (b : Bar) → IsValid m → Shows m b → length m.sessions ≡ length (row b.strip)
  length-sessions m b v s = sym (length-keys m.sessions) ∙ ap length (v.same_keys ∙ s.order)

module _ (ops : SessionOps) where
  open ops use {Session}

  pub SameTabs-input_to :
      (id : Text) (o : Option Session) (bytes : Bytes) (m : Manager Session)
      → SameTabs m (input_to ops id o bytes m)
  unfolding input_to
  SameTabs-input_to id none bytes m = (refl, refl, refl)
  SameTabs-input_to id (some session) bytes m =
      let (session', outs) = ops.write_input bytes session in
      unfold put_session in SameTabs-emit_for id outs (put_session id session' m)

  pub SameTabs-write_input :
      (bytes : Bytes) (active : Option Text) (m : Manager Session)
      → SameTabs m (input_at ops active bytes m)
  unfolding input_at
  SameTabs-write_input bytes none m = (refl, refl, refl)
  SameTabs-write_input bytes (some a) m = SameTabs-input_to a (lookup a m.sessions) bytes m

  pub SameTabs-resize_to :
      (id : Text) (o : Option Session) (m : Manager Session) → SameTabs m (resize_to ops id o m)
  unfolding resize_to put_session
  SameTabs-resize_to id none m = (refl, refl, refl)
  SameTabs-resize_to id (some session) m = (refl, refl, refl)

  pub SameTabs-resize_at :
      (active : Option Text) (m : Manager Session) → SameTabs m (resize_at ops active m)
  unfolding resize_at
  SameTabs-resize_at none m = (refl, refl, refl)
  SameTabs-resize_at (some a) m = SameTabs-resize_to a (lookup a m.sessions) m

  pub SameTabs-resize :
      (columns lines : ℤ) (m : Manager Session) → SameTabs m (resize ops columns lines m)
  unfolding resize
  SameTabs-resize columns lines m =
      if-elim (SameTabs m) _ (refl, refl, refl)
        (SameTabs-resize_at m.active (record m { cols = columns; rows = lines }))
