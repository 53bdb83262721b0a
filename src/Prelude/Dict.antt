-- ===== src/Prelude/Dict.antt =====
-- Lists of names without repetition, and tables from names to values as Python's `dict` keeps them: in the
-- order in which the names came.
use Prim.Native.Nat.{ℕ, zero, suc}
use mathlib.Core.Path.{◌≡◌, refl, sym, ap, ◌∙◌}
use mathlib.Core.Logic.{inl, inr}
use mathlib.Core.Bool.{true, false, ◌||◌, Bool}
use mathlib.Core.Option.{Option, none, some}
use mathlib.Core.List.{List, [], ◌∷◌, ◌++◌}
use native.Mathlib.Omega.{arith}
use zabawheels.Prelude.Tests.{if◌then◌else◌, Bool-cases}
use zabawheels.Prelude.Lists.{length, get_elem?}
use zabawheels.Prelude.Buffers.{bytes_eq, bytes_eq_iff}
use zabawheels.Prelude.Chars.{Text}

-- `id in names`
unfoldable pub has_id : Text → List Text → Bool
has_id id [] = false
has_id id (x ∷ xs) = bytes_eq x id || has_id id xs

-- `names.remove(id)`
unfoldable pub remove : Text → List Text → List Text
remove id [] = []
remove id (x ∷ xs) = let rest = remove id xs in if bytes_eq x id then xs else x ∷ rest

-- No id stands twice.
abbrev pub Distinct : List Text → Type 0
Distinct [] = Unit
Distinct (x ∷ xs) = (has_id x xs ≡ false) × Distinct xs

pub bytes_eq_comm : (a b : Text) → bytes_eq a b ≡ bytes_eq b a
bytes_eq_comm a b = ground (arith, bytes_eq_iff a b, bytes_eq_iff b a)

pub has_id-append :
    (id : Text) (xs ys : List Text) → has_id id (xs ++ ys) ≡ (has_id id xs || has_id id ys)
unfolding has_id
has_id-append id [] ys = refl
has_id-append id (x ∷ xs) ys = ground (arith, has_id-append id xs ys)

pub Distinct-append :
    (xs : List Text) (id : Text) → Distinct xs → has_id id xs ≡ false → Distinct (xs ++ id ∷ [])
unfolding has_id
Distinct-append [] id d h = (refl, tt)
Distinct-append (x ∷ xs) id d h = (
  ground (arith, has_id-append x xs (id ∷ []), d.0, bytes_eq_comm id x),
  Distinct-append xs id d.1 (ground arith),
)

-- What is left after a removal was there before.
pub has_id-remove :
    (id y : Text) (xs : List Text) → has_id y (remove id xs) ≡ true → has_id y xs ≡ true
unfolding has_id remove
has_id-remove id y [] h = h
has_id-remove id y (x ∷ xs) h = ground (arith, has_id-remove id y xs)

pub not_has_id-remove :
    (id y : Text) (xs : List Text) → has_id y xs ≡ false → has_id y (remove id xs) ≡ false
unfolding has_id remove
not_has_id-remove id y [] h = h
not_has_id-remove id y (x ∷ xs) h = ground (arith, not_has_id-remove id y xs)

-- Another id stays.
pub has_id-remove_ne :
    (id y : Text) (xs : List Text)
    → bytes_eq y id ≡ false
    → has_id y xs ≡ true
    → has_id y (remove id xs) ≡ true
unfolding has_id remove
has_id-remove_ne id y [] ne h = cc
has_id-remove_ne id y (x ∷ xs) ne h =
    ground (arith, has_id-remove_ne id y xs, bytes_eq_iff x id, bytes_eq_iff x y, bytes_eq_iff y id)

pub Distinct-remove : (id : Text) (xs : List Text) → Distinct xs → Distinct (remove id xs)
unfolding remove
Distinct-remove id [] d = tt
Distinct-remove id (x ∷ xs) d = elim (Bool-cases (bytes_eq x id)) [
  | inl e ↦ rw e d.1
  | inr e ↦ rw e (not_has_id-remove id x xs d.0, Distinct-remove id xs d.1)
]

pub length-remove :
    (id : Text) (xs : List Text) → has_id id xs ≡ true → length xs ≡ suc (length (remove id xs))
unfolding has_id remove
length-remove id [] h = cc
length-remove id (x ∷ xs) h = ground (arith, length-remove id xs)

pub has_id-get_elem? :
    (xs : List Text) (i : ℕ) {y : Text} → get_elem? xs i ≡ some y → has_id y xs ≡ true
unfolding has_id
has_id-get_elem? [] i h = cc
has_id-get_elem? (x ∷ xs) zero {y} h = ground (arith, bytes_eq_iff x y)
has_id-get_elem? (x ∷ xs) (suc i) h = ground (arith, has_id-get_elem? xs i h)

module _ {S : Type 0} where
  -- `d.get(id)`
  unfoldable pub lookup : Text → List (Text × S) → Option S
  lookup id [] = none
  lookup id ((k, v) ∷ d) = if bytes_eq k id then some v else lookup id d

  -- `d[id] = v`
  unfoldable pub insert : Text → S → List (Text × S) → List (Text × S)
  insert id v [] = (id, v) ∷ []
  insert id v ((k, w) ∷ d) = if bytes_eq k id then (k, v) ∷ d else (k, w) ∷ insert id v d

  -- What `d.pop(id)` leaves.
  unfoldable pub delete : Text → List (Text × S) → List (Text × S)
  delete id [] = []
  delete id ((k, v) ∷ d) = let rest = delete id d in if bytes_eq k id then d else (k, v) ∷ rest

  abbrev pub keys : List (Text × S) → List Text
  keys [] = []
  keys ((k, v) ∷ d) = k ∷ keys d

  pub keys-insert :
      (id : Text) (v : S) (d : List (Text × S))
      → keys (insert id v d) ≡ (if has_id id (keys d) then keys d else keys d ++ id ∷ [])
  unfolding insert has_id
  keys-insert id v [] = refl
  keys-insert id v ((k, w) ∷ d) = ground (arith, keys-insert id v d)

  pub keys-delete : (id : Text) (d : List (Text × S)) → keys (delete id d) ≡ remove id (keys d)
  unfolding delete remove
  keys-delete id [] = refl
  keys-delete id ((k, w) ∷ d) = ground (arith, keys-delete id d)

  -- The table has an item for exactly the ids in its list.
  pub lookup-has_id :
      (id : Text) (d : List (Text × S)) {v : S} → lookup id d ≡ some v → has_id id (keys d) ≡ true
  unfolding lookup has_id
  lookup-has_id id [] h = cc
  lookup-has_id id ((k, w) ∷ d) {v} h = ground (arith, lookup-has_id id d {v = v})

  pub has_id-lookup :
      (id : Text) (d : List (Text × S))
      → has_id id (keys d) ≡ true
      → (v : S) × (lookup id d ≡ some v)
  unfolding lookup has_id
  has_id-lookup id [] h = cc
  has_id-lookup id ((k, w) ∷ d) h = elim (Bool-cases (bytes_eq k id)) [
    | inl e ↦ (w, rw e)
    | inr e ↦ rw e (has_id-lookup id d (ground arith))
  ]

  pub lookup-none :
      (id : Text) (d : List (Text × S)) → lookup id d ≡ none → has_id id (keys d) ≡ false
  unfolding lookup has_id
  lookup-none id [] h = refl
  lookup-none id ((k, w) ∷ d) h = ground (arith, lookup-none id d)

  pub lookup-insert :
      (id other : Text) (v : S) (d : List (Text × S))
      → lookup other (insert id v d) ≡ (if bytes_eq id other then some v else lookup other d)
  unfolding lookup insert
  lookup-insert id other v [] = refl
  lookup-insert id other v ((k, w) ∷ d) = ground (
    arith,
    lookup-insert id other v d,
    bytes_eq_iff k id,
    bytes_eq_iff k other,
    bytes_eq_iff id other,
  )

  has_id-none : (id : Text) (d : List (Text × S)) → has_id id (keys d) ≡ false → lookup id d ≡ none
  unfolding lookup has_id
  has_id-none id [] h = refl
  has_id-none id ((k, w) ∷ d) h = ground (arith, has_id-none id d)

  lookup-deleted :
      (k id other : Text) (w : S) (d : List (Text × S))
      → k ≡ id
      → has_id k (keys d) ≡ false
      → lookup other d ≡ (if bytes_eq id other then none else lookup other ((k, w) ∷ d))
  unfolding lookup
  lookup-deleted k id other w d e new = elim (Bool-cases (bytes_eq id other)) [
    | inl same ↦ rw same (
        has_id-none other d
          (ap (λ x. has_id x (keys d)) (sym (e ∙ (bytes_eq_iff id other).0 same)) ∙ new))
    | inr differ ↦ rw (differ, e, differ) refl
  ]

  pub lookup-delete :
      (id other : Text) (d : List (Text × S))
      → Distinct (keys d)
      → lookup other (delete id d) ≡ (if bytes_eq id other then none else lookup other d)
  unfolding lookup delete
  lookup-delete id other [] n = ground arith
  lookup-delete id other ((k, w) ∷ d) (new, n) = elim (Bool-cases (bytes_eq k id)) [
    | inl e ↦ rw e (lookup-deleted k id other w d ((bytes_eq_iff k id).0 e) new)
    | inr e ↦ rw e (
        ground (
          arith,
          lookup-delete id other d n,
          e,
          bytes_eq_iff k other,
          bytes_eq_iff id other,
          bytes_eq_comm k id,
        ))
  ]

  pub length-keys : (d : List (Text × S)) → length (keys d) ≡ length d
  length-keys [] = refl
  length-keys ((k, v) ∷ d) = ap suc (length-keys d)
