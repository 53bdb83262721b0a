-- ===== src/Sessions/Creating.antt =====
-- `create`: a new tab, or the refusal at the limit.
use zabawheels.Prelude.Decimal.{str}
use zabawheels.Prelude.{
  ◌+◌, ◌<◌, ◌≡◌, refl, sym, ap, ◌∙◌, Bool, true, none, some, [], ◌∷◌, ◌++◌, arith, Text, length,
  if◌then◌else◌, if-elim, le→leb, lt→not_leb, length-append,
}
use zabawheels.Sessions.{
  SessionOps, Manager, max_sessions, emit_for, put_session, enter_tables, add_session, create,
}
use zabawheels.Prelude.Dict.{has_id}
use zabawheels.Prelude.Dict.{Distinct-append, keys, keys-insert, length-keys}
use zabawheels.Sessions.Valid.{
  IsValid, AllIssued-later, AllIssued-append, str-fresh, has_id-append_self, IsShown-append,
  emit_for-IsValid, put_session-IsValid,
}

module _ (ops : SessionOps) where
  open ops use {Session}

  enter_tables-IsValid :
      (activate : Bool) (m : Manager Session)
      → IsValid m
      → length m.order < max_sessions
      → IsValid (enter_tables ops activate (str (m.counter + 1)) m)
  unfolding enter_tables
  enter_tables-IsValid activate m v room =
      let id = str (m.counter + 1) in
      let fresh_id = str-fresh m.counter m.order v.issued in
      let there : has_id id (m.order ++ id ∷ []) ≡ true = has_id-append_self id m.order in
      record {
        same_keys =
            keys-insert id ops.fresh m.sessions
            ∙ ap (λ b. if b then keys m.sessions else keys m.sessions ++ id ∷ [])
                (ap (has_id id) v.same_keys ∙ fresh_id)
            ∙ ap (λ ks. ks ++ id ∷ []) v.same_keys;
        distinct = Distinct-append m.order id v.distinct fresh_id;
        issued =
            AllIssued-append (m.counter + 1) m.order id (AllIssued-later m.counter m.order v.issued)
              (m.counter + 1, omega arith, refl);
        shown = IsShown-append activate m.active id m.order there v.shown;
        capped = omega (arith, length-append m.order (id ∷ []));
      }

  add_session-IsValid :
      (activate : Bool) (m : Manager Session)
      → IsValid m
      → length m.order < max_sessions
      → IsValid (add_session ops activate (str (m.counter + 1)) m)
  unfolding add_session
  add_session-IsValid activate m v room =
      let id = str (m.counter + 1) in
      let (started, outs) = ops.start (ops.resize m.cols m.rows ops.fresh) in
      emit_for-IsValid id outs (
        put_session-IsValid id started (unfold enter_tables in has_id-append_self id m.order)
          (enter_tables-IsValid activate m v room))

  order-add_session :
      (activate : Bool) (id : Text) (m : Manager Session)
      → (add_session ops activate id m).order ≡ m.order ++ id ∷ []
  unfolding add_session emit_for put_session enter_tables
  order-add_session activate id m =
      if-elim {A = Manager Session} (λ u. u.order ≡ m.order ++ id ∷ []) _ refl refl

  -- What `create` answers, with room and without.
  create_outcome :
      (activate : Bool) (m : Manager Session)
      → IsValid m
      → (length m.order ≡ max_sessions → create ops activate m ≡ none)
        × (length m.order < max_sessions
            → (m' : Manager Session) × (create ops activate m ≡ some m')
              × IsValid m'
              × (m'.order ≡ m.order ++ str (m.counter + 1) ∷ []))
  unfolding create
  create_outcome activate m v =
      let sizes : length m.sessions ≡ length m.order =
        sym (length-keys m.sessions) ∙ ap length v.same_keys in
      (
        λ full. rw (le→leb max_sessions (length m.sessions) (omega arith)),
        λ room. (
          add_session ops activate (str (m.counter + 1)) m,
          rw (lt→not_leb max_sessions (length m.sessions) (omega arith)),
          add_session-IsValid activate m v room,
          order-add_session activate (str (m.counter + 1)) m,
        ),
      )

  -- At the limit `create` refuses.
  pub create-full :
      (activate : Bool) (m : Manager Session)
      → IsValid m
      → length m.order ≡ max_sessions
      → create ops activate m ≡ none
  create-full activate m v = (create_outcome activate m v).0

  -- While there are fewer than eight tabs, `create` succeeds and keeps the manager valid, and the tab
  -- strip gains the next id at its right end.
  pub create-IsValid :
      (activate : Bool) (m : Manager Session)
      → IsValid m
      → length m.order < max_sessions
      → (m' : Manager Session) × (create ops activate m ≡ some m')
        × IsValid m'
        × (m'.order ≡ m.order ++ str (m.counter + 1) ∷ [])
  create-IsValid activate m v = (create_outcome activate m v).1
