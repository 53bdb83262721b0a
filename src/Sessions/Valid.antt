-- ===== src/Sessions/Valid.antt =====
-- The invariant of `SessionManager`, and that its small steps keep it.
use zabawheels.Prelude.Decimal.{str, str-injective}
use zabawheels.Prelude.{
  ℕ, ◌+◌, ◌≤◌, ◌≡◌, refl, sym, ap, ◌∙◌, Bool, true, false, ◌||◌, Option, none, some, List, [], ◌∷◌,
  ◌++◌, arith, Bytes, Text, bytes_eq, bytes_eq_iff, bytes_eq_refl, length, if◌then◌else◌, if-elim,
  Bool-cases, inl, inr,
}
use zabawheels.Sessions.{Manager, max_sessions, is_active, is_none, emit_for, put_session, replay}
use zabawheels.Prelude.Dict.{has_id, remove}
use zabawheels.Prelude.Dict.{Distinct, has_id-append, keys, keys-insert}

-- An id that the counter has given out.
abbrev pub IssuedBy : ℕ → Text → Type 0
IssuedBy c id = (k : ℕ) × (k ≤ c) × (id ≡ str k)

abbrev pub AllIssued : ℕ → List Text → Type 0
AllIssued c [] = Unit
AllIssued c (x ∷ xs) = IssuedBy c x × AllIssued c xs

-- The id on screen is one of the tabs, and a screen is empty only when there is no tab.
abbrev pub IsShown : Option Text → List Text → Type 0
IsShown none order = order ≡ []
IsShown (some a) order = has_id a order ≡ true

-- The tables agree, no tab is listed twice, the ids were given out by the counter, and the cap holds.
pub record IsValid {S : Type 0} (m : Manager S) : Type 0 where
  pub same_keys : keys m.sessions ≡ m.order
  pub distinct : Distinct m.order
  pub issued : AllIssued m.counter m.order
  pub shown : IsShown m.active m.order
  pub capped : length m.order ≤ max_sessions

pub AllIssued-later : (c : ℕ) (xs : List Text) → AllIssued c xs → AllIssued (c + 1) xs
AllIssued-later c [] h = tt
AllIssued-later c (x ∷ xs) ((k, le, e), h) = ((k, omega arith, e), AllIssued-later c xs h)

pub AllIssued-append :
    (c : ℕ) (xs : List Text) (x : Text) → AllIssued c xs → IssuedBy c x → AllIssued c (xs ++ x ∷ [])
AllIssued-append c [] x h i = (i, tt)
AllIssued-append c (y ∷ xs) x h i = (h.0, AllIssued-append c xs x h.1 i)

pub AllIssued-remove :
    (c : ℕ) (id : Text) (xs : List Text) → AllIssued c xs → AllIssued c (remove id xs)
unfolding remove
AllIssued-remove c id [] h = tt
AllIssued-remove c id (x ∷ xs) h =
    if-elim (AllIssued c) (bytes_eq x id) h.1 (h.0, AllIssued-remove c id xs h.1)

-- The next id is new.
pub str-fresh : (c : ℕ) (xs : List Text) → AllIssued c xs → has_id (str (c + 1)) xs ≡ false
unfolding has_id
str-fresh c [] h = refl
str-fresh c (x ∷ xs) ((k, le, e), h) = elim (Bool-cases (bytes_eq x (str (c + 1)))) [
  | inl same ↦
      let number = str-injective k (c + 1) (sym e ∙ (bytes_eq_iff x (str (c + 1))).0 same) in
      absurd (omega arith)
  | inr other ↦ rw other (str-fresh c xs h)
]

pub has_id-append_self : (id : Text) (xs : List Text) → has_id id (xs ++ id ∷ []) ≡ true
unfolding has_id
has_id-append_self id xs = ground (arith, has_id-append id xs (id ∷ []), bytes_eq_refl id)

pub IsShown-append :
    (activate : Bool) (active : Option Text) (id : Text) (order : List Text)
    → has_id id (order ++ id ∷ []) ≡ true
    → IsShown active order
    → IsShown (if activate || is_none active then some id else active) (order ++ id ∷ [])
IsShown-append true active id order there h = there
IsShown-append false none id order there h = there
IsShown-append false (some a) id order there h = ground (arith, has_id-append a order (id ∷ []))

pub is_active-eq :
    (active : Option Text) (id : Text) → is_active active id ≡ true → active ≡ some id
unfolding is_active
is_active-eq none id h = cc
is_active-eq (some a) id h = ap some ((bytes_eq_iff a id).0 h)

module _ {S : Type 0} where
  -- What a session writes reaches the log of broadcasts only.
  pub emit_for-IsValid :
      (id : Text) (outs : List Bytes) {m : Manager S} → IsValid m → IsValid (emit_for id outs m)
  unfolding emit_for
  emit_for-IsValid id outs {m} v =
      if-elim IsValid (is_active m.active id)
        (record {
          same_keys = v.same_keys;
          distinct = v.distinct;
          issued = v.issued;
          shown = v.shown;
          capped = v.capped;
        })
        v

  -- So does what the manager itself sends.
  pub broadcasts-IsValid :
      (log : List Bytes) {m : Manager S} → IsValid m → IsValid (record m { broadcasts = log })
  broadcasts-IsValid log v = record {
    same_keys = v.same_keys;
    distinct = v.distinct;
    issued = v.issued;
    shown = v.shown;
    capped = v.capped;
  }

  pub active-replay : (bytes : Bytes) (m : Manager S) → (replay bytes m).active ≡ m.active
  unfolding replay
  active-replay [] m = refl
  active-replay (b ∷ bytes) m = refl

  pub replay-IsValid : (bytes : Bytes) {m : Manager S} → IsValid m → IsValid (replay bytes m)
  unfolding replay
  replay-IsValid [] v = v
  replay-IsValid (b ∷ bytes) {m} v = broadcasts-IsValid (m.broadcasts ++ (b ∷ bytes) ∷ []) v

  -- A session that is in the table may be replaced.
  pub put_session-IsValid :
      (id : Text) (s : S) {m : Manager S}
      → has_id id m.order ≡ true
      → IsValid m
      → IsValid (put_session id s m)
  unfolding put_session
  put_session-IsValid id s {m} h v = record {
    same_keys =
        keys-insert id s m.sessions
        ∙ ap (λ b. if b then keys m.sessions else keys m.sessions ++ id ∷ [])
            (ap (has_id id) v.same_keys ∙ h)
        ∙ v.same_keys;
    distinct = v.distinct;
    issued = v.issued;
    shown = v.shown;
    capped = v.capped;
  }
