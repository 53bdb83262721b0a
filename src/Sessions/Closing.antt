-- ===== src/Sessions/Closing.antt =====
-- Closing a tab.
use zabawheels.Prelude.{
  ℕ, zero, suc, ◌+◌, ◌-◌, ◌≤◌, ◌<◌, min, ◌≡◌, ◌≢◌, refl, sym, ap, ◌∙◌, subst, Bool, true, false,
  Option, none, some, List, [], ◌∷◌, ◌++◌, arith, Text, length, get_elem?, if-elim_eq, Option-cases,
  inl, inr,
}
use zabawheels.Prelude.Decimal.{str}
use zabawheels.Sessions.{
  SessionOps, Manager, max_sessions, is_active, index_of, emit_for, show_session, switch_found,
  switch, successor, take_out, reopen, close_found, close,
}
use zabawheels.Prelude.Dict.{has_id, remove, lookup}
use zabawheels.Prelude.Dict.{
  has_id-remove_ne, Distinct-remove, length-remove, has_id-get_elem?, keys-delete, lookup-has_id,
  has_id-lookup,
}
use zabawheels.Sessions.Valid.{IsShown, IsValid, AllIssued-remove, emit_for-IsValid}
use zabawheels.Sessions.Creating.{create-IsValid}
use zabawheels.Sessions.Switching.{show_session-IsValid, shown-IsValid, active-show_session}

get_elem?-lt : (xs : List Text) (i : ℕ) → get_elem? xs i ≡ none → length xs ≤ i
get_elem?-lt [] i h = omega arith
get_elem?-lt (x ∷ xs) zero h = cc
get_elem?-lt (x ∷ xs) (suc i) h = omega (arith, get_elem?-lt xs i h)

IsShown-get_elem? :
    (xs : List Text) (i : ℕ) (o : Option Text)
    → get_elem? xs i ≡ o
    → (o ≡ none → xs ≡ [])
    → IsShown o xs
IsShown-get_elem? xs i none e last = last refl
IsShown-get_elem? xs i (some a) e last = has_id-get_elem? xs i e

no_items : (xs : List Text) (i : ℕ) → length xs ≤ min i (length xs - 1) → xs ≡ []
no_items [] i h = refl
no_items (x ∷ xs) i h = absurd (omega arith)

not_empty : (xs : List Text) (x : Text) → xs ++ x ∷ [] ≢ []
not_empty [] x e = cc
not_empty (y ∷ xs) x e = cc

module _ (ops : SessionOps) where
  open ops use {Session}

  -- The neighbour is one of the tabs that are left, if one is.
  successor-IsShown : (i : ℕ) (xs : List Text) → IsShown (successor ops i xs) xs
  unfolding successor
  successor-IsShown i xs =
      IsShown-get_elem? xs (min i (length xs - 1)) _ refl
        (λ e. no_items xs i (get_elem?-lt xs (min i (length xs - 1)) e))

  still_shown :
      (id : Text) (active : Option Text) (xs : List Text)
      → has_id id xs ≡ true
      → IsShown active xs
      → is_active active id ≡ false
      → IsShown active (remove id xs)
  unfolding is_active
  still_shown id none xs there e other =
      let nowhere = subst (λ l. has_id id l ≡ true) e there in unfold has_id in cc nowhere
  still_shown id (some a) xs there h other = has_id-remove_ne id a xs other h

  pub take_out-IsValid :
      (id : Text) (m : Manager Session)
      → has_id id m.order ≡ true
      → IsValid m
      → IsValid (take_out ops id m)
  unfolding take_out
  take_out-IsValid id m there v = record {
    same_keys = keys-delete id m.sessions ∙ ap (remove id) v.same_keys;
    distinct = Distinct-remove id m.order v.distinct;
    issued = AllIssued-remove m.counter id m.order v.issued;
    shown =
        if-elim_eq (λ a. IsShown a (remove id m.order)) (is_active m.active id)
          (λ was. successor-IsShown (index_of id m.order) (remove id m.order))
          (λ other. still_shown id m.active m.order there v.shown other);
    capped = let n = length-remove id m.order there in let c = v.capped in omega arith;
  }

  -- Something is on screen.
  abbrev pub IsOpen : Manager Session → Type 0
  IsOpen m = (a : Text) × (m.active ≡ some a)

  IsOpen-of :
      (m : Manager Session) (x : Text) (xs : List Text)
      → IsValid m
      → m.order ≡ xs ++ x ∷ []
      → IsOpen m
  IsOpen-of m x xs v e = elim (Option-cases m.active) [
    | inl dark ↦ absurd (not_empty xs x (sym e ∙ subst (λ o. IsShown o m.order) dark v.shown))
    | inr (a, lit) ↦ (a, lit)
  ]

  reopen-IsValid :
      (was_active : Bool) (o : Option Text) (u : Manager Session)
      → u.active ≡ o
      → IsValid u
      → (m' : Manager Session) × (reopen ops was_active o u ≡ some m') × IsValid m' × IsOpen m'
  unfolding reopen
  reopen-IsValid was none u e v =
      let empty : u.order ≡ [] = subst (λ o. IsShown o u.order) e v.shown in
      let room : length u.order < max_sessions = rw empty (omega arith) in
      let (m', made, valid, order) = create-IsValid ops true u v room in
      (m', made, valid, IsOpen-of m' (str (u.counter + 1)) u.order valid order)
  reopen-IsValid false (some a) u e v = (u, refl, v, (a, e))
  reopen-IsValid true (some a) u e v =
      let there : has_id a u.order ≡ true = subst (λ o. IsShown o u.order) e v.shown in
      let (session, found) = has_id-lookup a u.sessions (ap (has_id a) v.same_keys ∙ there) in
      let dark = record u { active = none } in
      let again = shown-IsValid ops a dark v.same_keys v.distinct v.issued v.capped there in
      (
        show_session ops a session dark,
        unfold switch switch_found is_active in rw found refl,
        show_session-IsValid ops a session dark there again,
        (a, active-show_session ops a session dark),
      )

  -- Closing a tab that is there always succeeds and leaves a valid manager with a tab on screen, even
  -- when it was the last tab.
  pub close-IsValid :
      (id : Text) (m : Manager Session)
      → IsValid m
      → has_id id m.order ≡ true
      → (m' : Manager Session) × (close ops id m ≡ some (m', true)) × IsValid m' × IsOpen m'
  unfolding close close_found
  close-IsValid id m v there =
      let (session, found) = has_id-lookup id m.sessions (ap (has_id id) v.same_keys ∙ there) in
      let u = emit_for id (ops.stop session) (take_out ops id m) in
      let valid = emit_for-IsValid id (ops.stop session) (take_out-IsValid id m there v) in
      let (m', done, valid', open') =
        reopen-IsValid (is_active m.active id) u.active u refl valid in
      (m', rw (found, done), valid', open')

  -- Closing one that is not there changes nothing.
  pub close-absent :
      (id : Text) (m : Manager Session)
      → IsValid m
      → has_id id m.order ≡ false
      → close ops id m ≡ some (m, false)
  unfolding close close_found
  close-absent id m v missing = elim (Option-cases (lookup id m.sessions)) [
    | inl absent ↦ rw absent
    | inr (session, found) ↦
        cc (missing, sym (ap (has_id id) v.same_keys), lookup-has_id id m.sessions found)
  ]
