-- ===== src/Sessions/Tabs/Rows.antt =====
-- Rows of tabs, laid one on the other: the tab strip of app/zmux/sessions.py.
use mathlib.Core.Option.{some-injective}
use zabawheels.Prelude.Dict.{has_id, remove, Distinct}
use zabawheels.Prelude.{
  subst, suc, ℕ, ◌+◌, ◌≡◌, refl, sym, ap, ◌∙◌, true, false, ◌||◌, none, some, List, [], ◌∷◌, ◌++◌,
  arith, Text, bytes_eq, bytes_eq_iff, length, get_elem?, Bool-cases, inl, inr,
}
use zabawheels.Sessions.{index_of}
use zabawheels.Sessions.Tabs.{Strip, onto, row, except, seek}

pub has_id-onto :
    (id : Text) (xs ys : List Text) → has_id id (onto xs ys) ≡ (has_id id xs || has_id id ys)
unfolding onto has_id
has_id-onto id [] ys = refl
has_id-onto id (x ∷ xs) ys = ground (arith, has_id-onto id xs (x ∷ ys))

pub onto-append : (xs ys zs : List Text) → onto xs ys ++ zs ≡ onto xs (ys ++ zs)
unfolding onto
onto-append [] ys zs = refl
onto-append (x ∷ xs) ys zs = onto-append xs (x ∷ ys) zs

pub onto-onto : (ys xs zs : List Text) → onto (onto ys xs) zs ≡ onto xs (ys ++ zs)
unfolding onto
onto-onto [] xs zs = refl
onto-onto (y ∷ ys) xs zs = onto-onto ys (y ∷ xs) zs

pub except-onto :
    (id : Text) (xs ys : List Text) → except id (onto xs ys) ≡ onto (except id xs) (except id ys)
unfolding onto except
except-onto id [] ys = refl
except-onto id (x ∷ xs) ys = elim (Bool-cases (bytes_eq x id)) [
  | inl same ↦ rw (except-onto id xs (x ∷ ys)) unfold except in rw same refl
  | inr other ↦ rw (except-onto id xs (x ∷ ys)) unfold except in rw other refl
]

pub except-absent : (id : Text) (xs : List Text) → has_id id xs ≡ false → except id xs ≡ xs
unfolding has_id except
except-absent id [] h = refl
except-absent id (x ∷ xs) h = ground (arith, except-absent id xs)

pub remove-except : (id : Text) (xs : List Text) → Distinct xs → remove id xs ≡ except id xs
unfolding remove except
remove-except id [] d = refl
remove-except id (x ∷ xs) d = elim (Bool-cases (bytes_eq x id)) [
  | inl same ↦
      let gone : has_id id xs ≡ false =
        ap (λ y. has_id y xs) (sym ((bytes_eq_iff x id).0 same)) ∙ d.0 in
      rw same (sym (except-absent id xs gone))
  | inr other ↦ rw other (ap (◌∷◌ x) (remove-except id xs d.1))
]

-- A name of a row without repetition is in one part of it only.
pub Distinct-onto :
    (xs ys : List Text)
    → Distinct (onto xs ys)
    → Distinct ys × ((x : Text) → has_id x ys ≡ true → has_id x xs ≡ false)
unfolding onto has_id
Distinct-onto [] ys d = (d, λ x there. refl)
Distinct-onto (y ∷ xs) ys d =
    let (d', apart) = Distinct-onto xs (y ∷ ys) d in
    (
      d'.1,
      λ x there. elim (Bool-cases (bytes_eq y x)) [
        | inl same ↦ cc (d'.0, ap (λ z. has_id z ys) ((bytes_eq_iff y x).0 same), there)
        | inr other ↦ ground (arith, other, apart x (unfold has_id in rw other there))
      ],
    )

pub index_of-onto :
    (id : Text) (xs ys : List Text)
    → has_id id xs ≡ false
    → index_of id (onto xs ys) ≡ length xs + index_of id ys
unfolding onto has_id
index_of-onto id [] ys h = omega arith
index_of-onto id (x ∷ xs) ys h =
    let later : index_of id (x ∷ ys) ≡ 1 + index_of id ys = unfold index_of in ground arith in
    omega (arith, later, index_of-onto id xs (x ∷ ys) (ground arith))

pub length-onto : (xs ys : List Text) → length (onto xs ys) ≡ length xs + length ys
unfolding onto
length-onto [] ys = omega arith
length-onto (x ∷ xs) ys = omega (arith, length-onto xs (x ∷ ys))

pub get_elem?-onto :
    (xs ys : List Text) (k : ℕ) → get_elem? (onto xs ys) (length xs + k) ≡ get_elem? ys k
unfolding onto
get_elem?-onto [] ys k = ap (get_elem? ys) (omega arith)
get_elem?-onto (x ∷ xs) ys k =
    let shift : suc (length xs) + k ≡ length xs + suc k = omega arith in
    ap (get_elem? (onto xs (x ∷ ys))) shift ∙ get_elem?-onto xs (x ∷ ys) (suc k)

-- Where the hand comes to rest.
pub seek-some :
    (id : Text) (left xs : List Text) {s : Strip}
    → seek id left xs ≡ some s
    → (row s ≡ onto left xs) × (s.here ≡ id)
unfolding seek onto
seek-some id left [] h = cc
seek-some id left (x ∷ xs) {s} h =
    let stop : Strip = record { left = left; here = x; right = xs } in
    elim (Bool-cases (bytes_eq x id)) [
      | inl same ↦
          let found : seek id left (x ∷ xs) ≡ some stop = unfold seek in rw same refl in
          subst (λ (u : Strip). (row u ≡ onto left (x ∷ xs)) × (u.here ≡ id))
            (some-injective stop s (sym found ∙ h)) (refl, (bytes_eq_iff x id).0 same)
      | inr other ↦
          let on : seek id left (x ∷ xs) ≡ seek id (x ∷ left) xs = unfold seek in rw other refl in
          seek-some id (x ∷ left) xs (sym on ∙ h)
    ]

pub seek-none : (id : Text) (left xs : List Text) → seek id left xs ≡ none → has_id id xs ≡ false
unfolding seek has_id
seek-none id left [] h = refl
seek-none id left (x ∷ xs) h = ground (arith, seek-none id (x ∷ left) xs)

pub seek-absent : (id : Text) (left xs : List Text) → has_id id xs ≡ false → seek id left xs ≡ none
unfolding seek has_id
seek-absent id left [] h = refl
seek-absent id left (x ∷ xs) h = ground (arith, seek-absent id (x ∷ left) xs)
