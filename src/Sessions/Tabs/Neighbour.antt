-- ===== src/Sessions/Tabs/Neighbour.antt =====
-- The tab that follows one that is closed, in app/zmux/sessions.py and in the tab strip.
use zabawheels.Prelude.Dict.{has_id, remove, keys, Distinct}
use zabawheels.Prelude.{
  ◌+◌, ◌-◌, min, ◌≡◌, refl, ap, ap₂, ◌∙◌, Bool, false, ◌||◌, Option, none, some, List, [], ◌∷◌,
  arith, Text, bytes_eq_refl, length, get_elem?,
}
use zabawheels.Sessions.{SessionOps, index_of, successor}
use zabawheels.Sessions.Tabs.{Strip, onto, row, except}
use zabawheels.Sessions.Tabs.Rows.{
  except-onto, except-absent, remove-except, Distinct-onto, index_of-onto, length-onto,
  get_elem?-onto,
}

-- The tab under the hand is nowhere else in the strip.
pub apart :
    (s : Strip)
    → Distinct (row s)
    → (has_id s.here s.left ≡ false) × (has_id s.here s.right ≡ false)
apart s d =
    let (d', alone) = Distinct-onto s.left (s.here ∷ s.right) d in
    (alone s.here (unfold has_id in ground (arith, bytes_eq_refl s.here)), d'.0)

pub remove-here : (s : Strip) → Distinct (row s) → remove s.here (row s) ≡ onto s.left s.right
remove-here s d =
    let (left, right) = apart s d in
    let rest : except s.here (s.here ∷ s.right) ≡ s.right =
      unfold except in rw (bytes_eq_refl s.here) (except-absent s.here s.right right) in
    remove-except s.here (row s) d
    ∙ except-onto s.here s.left (s.here ∷ s.right)
    ∙ ap₂ onto (except-absent s.here s.left left) rest

pub index_of-here : (s : Strip) → Distinct (row s) → index_of s.here (row s) ≡ length s.left
index_of-here s d =
    let first : index_of s.here (s.here ∷ s.right) ≡ 0 =
      unfold index_of in rw (bytes_eq_refl s.here) refl in
    omega (arith, first, index_of-onto s.here s.left (s.here ∷ s.right) (apart s d).0)

-- The tab that the hand goes to.
abbrev pub neighbour : List Text → List Text → Option Text
neighbour left (y ∷ right) = some y
neighbour (y ∷ left) [] = some y
neighbour [] [] = none

pub keys-empty : {S : Type 0} (d : List (Text × S)) → keys d ≡ [] → d ≡ []
keys-empty [] e = refl
keys-empty ((k, v) ∷ d) e = cc

pub or_false : {a b : Bool} → (a || b) ≡ false → (a ≡ false) × (b ≡ false)
or_false {a} {b} h = (ground (arith, h), ground (arith, h))

module _ (ops : SessionOps) where
  open ops use {Session}

  pub successor-neighbour :
      (left right : List Text)
      → successor ops (length left) (onto left right) ≡ neighbour left right
  unfolding successor
  successor-neighbour left (y ∷ right) =
      let here : min (length left) (length (onto left (y ∷ right)) - 1) ≡ length left + 0 =
        omega (arith, length-onto left (y ∷ right)) in
      ap (get_elem? (onto left (y ∷ right))) here ∙ get_elem?-onto left (y ∷ right) 0
  successor-neighbour (y ∷ left) [] =
      let last : min (length (y ∷ left)) (length (onto left (y ∷ [])) - 1) ≡ length left + 0 =
        omega (arith, length-onto left (y ∷ [])) in
      unfold onto in ap (get_elem? (onto left (y ∷ []))) last ∙ get_elem?-onto left (y ∷ []) 0
  successor-neighbour [] [] = unfold onto in refl
