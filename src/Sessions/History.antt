-- ===== src/Sessions/History.antt =====
-- Any sequence of calls on the manager.
use zabawheels.Prelude.Int.{ℤ}
use zabawheels.Prelude.{
  ◌≡◌, refl, Bool, true, Option, none, some, List, [], ◌∷◌, arith, Bytes, Text, length, leb,
  Bool-cases, inl, inr,
}
use zabawheels.Sessions.{
  SessionOps, Manager, max_sessions, new_manager, create, switch, close, write_input, resize,
  get_manager,
}
use zabawheels.Prelude.Dict.{has_id}
use zabawheels.Sessions.Valid.{IsValid}
use zabawheels.Sessions.Creating.{create-full, create-IsValid}
use zabawheels.Sessions.Switching.{switch-IsValid}
use zabawheels.Sessions.Closing.{close-IsValid, close-absent}
use zabawheels.Sessions.Isolation.{write_input-IsValid, resize-IsValid}

-- The calls that the websocket layer makes on the manager.
pub data Call : Type 0 where
  new : Bool → Call
  switch_to : Text → Call
  close_tab : Text → Call
  keys_typed : Bytes → Call
  resized : ℤ → ℤ → Call

module _ (ops : SessionOps) where
  open ops use {Session}

  -- A call that raises leaves the manager as it was.
  abbrev pub or_same : Option (Manager Session) → Manager Session → Manager Session
  or_same none m = m
  or_same (some m') m = m'

  abbrev pub or_same_pair : Option (Manager Session × Bool) → Manager Session → Manager Session
  or_same_pair none m = m
  or_same_pair (some (m', answer)) m = m'

  unfoldable pub perform : Call → Manager Session → Manager Session
  perform (new activate) m = or_same (create ops activate m) m
  perform (switch_to id) m = (switch ops id m).0
  perform (close_tab id) m = or_same_pair (close ops id m) m
  perform (keys_typed bytes) m = write_input ops bytes m
  perform (resized columns lines) m = resize ops columns lines m

  unfoldable pub perform_all : List Call → Manager Session → Manager Session
  perform_all [] m = m
  perform_all (c ∷ cs) m = perform_all cs (perform c m)

  pub new_manager-IsValid : IsValid {S = Session} new_manager
  new_manager-IsValid = record {
    same_keys = refl;
    distinct = tt;
    issued = tt;
    shown = refl;
    capped = omega arith;
  }

  pub perform-IsValid : (c : Call) (m : Manager Session) → IsValid m → IsValid (perform c m)
  unfolding perform
  perform-IsValid (new activate) m v = elim (Bool-cases (leb max_sessions (length m.order))) [
    | inl full ↦ rw (create-full ops activate m v (let c = v.capped in ground arith)) v
    | inr room ↦
        let (m', made, valid, order) = create-IsValid ops activate m v (ground arith) in
        rw made valid
  ]
  perform-IsValid (switch_to id) m v = (switch-IsValid ops id m v).0
  perform-IsValid (close_tab id) m v = elim (Bool-cases (has_id id m.order)) [
    | inl there ↦ let (m', done, valid, lit) = close-IsValid ops id m v there in rw done valid
    | inr missing ↦ rw (close-absent ops id m v missing) v
  ]
  perform-IsValid (keys_typed bytes) m v = write_input-IsValid ops bytes m v
  perform-IsValid (resized columns lines) m v = resize-IsValid ops columns lines m v

  pub perform_all-IsValid :
      (cs : List Call) (m : Manager Session) → IsValid m → IsValid (perform_all cs m)
  unfolding perform_all
  perform_all-IsValid [] m v = v
  perform_all-IsValid (c ∷ cs) m v = perform_all-IsValid cs (perform c m) (perform-IsValid c m v)

  -- From the first use of the manager on, whatever is created, switched, closed, typed or resized, the
  -- tables agree, no tab is listed twice, the tab on screen is one of the tabs, and there are at most
  -- eight.
  pub manager-IsValid :
      (calls : List Call)
      → (m : Manager Session) × (get_manager ops none ≡ some m) × IsValid (perform_all calls m)
  unfolding get_manager
  manager-IsValid calls =
      let (m, made, valid, order) =
        create-IsValid ops true new_manager new_manager-IsValid (omega arith) in
      (m, made, perform_all-IsValid calls m valid)
