-- ===== src/Zpip/Install/Ends.antt =====
-- That the recursion of `install` (app/zmux/zpip.py) ends, on the stack of names that stops its cycles.
use zabawheels.Prelude.{
  ◌≡◌, refl, ap, ◌∙◌, ℕ, zero, suc, ◌+◌, ◌<◌, ◌≤◌, Bool, true, false, Option, List, [], ◌∷◌, ◌++◌,
  Text, arith, length, is_empty, length-append, if◌then◌else◌, Option-cases, inl, inr,
}
use zabawheels.Prelude.Outcome.{Outcome, raised, returned, ◌>>=◌, Holds, Holds-weaken}
use zabawheels.Prelude.Dict.{
  has_id, Distinct, Distinct-append, remove, length-remove, has_id-remove_ne, lookup,
}
use zabawheels.Prelude.Json.{Json}
use zabawheels.Zpip.Names.{canonicalize}
use zabawheels.Zpip.Catalog.{Requirement, resolve, manifest_requirements}
use zabawheels.Zpip.Store.{Db, Store}
use zabawheels.Zpip.Install.{
  World, Answer, Resolved, add_dependency, meet_requirement, meet_requirements, after_requirements,
  with_requirements, with_manifest, install_as, install_canonical, install,
}

abbrev pub IsWithin : List Text → List Text → Type 0
IsWithin [] names = Unit
IsWithin (x ∷ xs) names = (has_id x names ≡ true) × IsWithin xs names

IsWithin-append :
    (xs names : List Text) (x : Text)
    → IsWithin xs names
    → has_id x names ≡ true
    → IsWithin (xs ++ x ∷ []) names
IsWithin-append [] names x h k = (k, tt)
IsWithin-append (y ∷ xs) names x (here, h) k = (here, IsWithin-append xs names x h k)

IsWithin-remove :
    (xs names : List Text) (x : Text)
    → has_id x xs ≡ false
    → IsWithin xs names
    → IsWithin xs (remove x names)
unfolding has_id
IsWithin-remove [] names x h k = tt
IsWithin-remove (y ∷ xs) names x h (here, k) = (
  has_id-remove_ne x y names (ground (arith, h)) here,
  IsWithin-remove xs names x (ground (arith, h)) k,
)

-- Different names among those of a list are no more than the list's.
length-IsWithin :
    (xs names : List Text) → Distinct xs → IsWithin xs names → length xs ≤ length names
length-IsWithin [] names d h = ground arith
length-IsWithin (x ∷ xs) names (new, d) (here, h) =
    let shorter = length-IsWithin xs (remove x names) d (IsWithin-remove xs names x new h) in
    ground (arith, shorter, length-remove x names here)

-- The requirements name packages of the list.
abbrev pub AreKnown : List Text → List Requirement → Type 0
AreKnown names [] = Unit
AreKnown names (r ∷ rs) =
    Holds (λ dep. has_id dep names ≡ true) (canonicalize r.name) × AreKnown names rs

-- The index is closed under names: what resolves requires packages of the list alone.
pub record IsClosed (w : World) (names : List Text) : Type 0 where
  pub canonical :
      (name : Text)
      → has_id name names ≡ true
      → Holds (λ n. has_id n names ≡ true) (canonicalize name)
  pub required :
      (name : Text) (version : Option Text) (channel : Text)
      → Holds
          (AreKnown names)
          (resolve w.sources name version channel >>= manifest_requirements w.sources)

module _ (names : List Text) (rec rec' : Text → Option Text → Store → Answer × Store)
    (same : (dep : Text) (exact : Option Text) (s : Store)
      → has_id dep names ≡ true
      → rec dep exact s ≡ rec' dep exact s) where
  add_dependency-same :
      (dep : Text) (r : Requirement) (deps : List Text) (s : Store)
      → has_id dep names ≡ true
      → add_dependency rec dep r deps s ≡ add_dependency rec' dep r deps s
  unfolding add_dependency
  add_dependency-same dep r deps s h = rw (same dep r.exact s h) refl

  meet_requirement-same :
      (r : Requirement) (dep : Outcome Text) (before : Db) (deps : List Text) (s : Store)
      → Holds (λ d. has_id d names ≡ true) dep
      → meet_requirement rec r dep before deps s ≡ meet_requirement rec' r dep before deps s
  unfolding meet_requirement
  meet_requirement-same r (raised e) before deps s h = refl
  meet_requirement-same r (returned dep) before deps s h = elim (Option-cases (lookup dep before)) [
    | inr (old, e) ↦ rw e refl
    | inl e ↦ rw e (add_dependency-same dep r deps s h)
  ]

  meet_requirements-same :
      (rs : List Requirement) (before : Db) (found : Resolved)
      → AreKnown names rs
      → meet_requirements rec rs before found ≡ meet_requirements rec' rs before found
  unfolding meet_requirements
  meet_requirements-same [] before found h = refl
  meet_requirements-same (r ∷ rs) before found (here, h) = elim (Option-cases found.error) [
    | inr (e, stopped) ↦ rw stopped refl
    | inl through ↦
        let step =
          meet_requirement-same r (canonicalize r.name) before found.installed_deps found.store
            here in
        rw through
          (meet_requirements-same rs before _ h ∙ ap (meet_requirements rec' rs before) step)
  ]

  with_manifest-same :
      (w : World) (name channel : Text) (by_name : Bool) (manifest : Outcome Json) (s : Store)
      → Holds (AreKnown names) (manifest >>= manifest_requirements w.sources)
      → with_manifest w rec name channel by_name manifest s
        ≡ with_manifest w rec' name channel by_name manifest s
  unfolding with_manifest with_requirements
  with_manifest-same w name channel by_name (raised e) s h = refl
  with_manifest-same w name channel by_name (returned manifest) s h =
      with_requirements-same (manifest_requirements w.sources manifest) h
    where
      with_requirements-same :
          (rs : Outcome (List Requirement))
          → Holds (AreKnown names) rs
          → with_requirements w rec name manifest channel by_name rs s
            ≡ with_requirements w rec' name manifest channel by_name rs s
      with_requirements-same (raised e) k = refl
      with_requirements-same (returned rs) k =
          ap (after_requirements w name manifest channel by_name)
            (meet_requirements-same rs s.db _ k)

-- A branch that is equal where it is taken.
if-else :
    {A : Type 0} (test : Bool) (x y y' : A)
    → (test ≡ false → y ≡ y')
    → (if test then x else y) ≡ (if test then x else y')
if-else true x y y' h = refl
if-else false x y y' h = h refl

module _ (w : World) (names : List Text) (closed : IsClosed w names) where
  install_canonical-same :
      (rec rec' : Text → Text → Option Text → Store → Answer × Store) (name : Outcome Text)
      (version : Option Text) (channel : Text) (stack : List Text) (s : Store)
      → Holds
          (λ n.
            has_id n stack ≡ false
            → (dep : Text) (exact : Option Text) (u : Store) → has_id dep names ≡ true
            → rec n dep exact u ≡ rec' n dep exact u)
          name
      → install_canonical w rec name version channel stack s
        ≡ install_canonical w rec' name version channel stack s
  unfolding install_canonical install_as
  install_canonical-same rec rec' (raised e) version channel stack s same = refl
  install_canonical-same rec rec' (returned name) version channel stack s same =
      if-else (has_id name stack) _ _ _ (λ fresh.
        with_manifest-same names (rec name) (rec' name) (same fresh) w name channel (is_empty stack)
          (resolve w.sources name version channel) s (closed.required name version channel))

  -- When all that the index resolves requires packages of a finite list alone, and the name is of the list, then
  -- any two amounts of fuel that are more than the names of the list not on the stack give the same answer and
  -- store: the recursion ends by itself at a depth of at most the list's length.
  pub install-enough :
      (fuel fuel' : ℕ) (name : Text) (version : Option Text) (channel : Text) (stack : List Text)
      (s : Store)
      → Holds (λ n. has_id n names ≡ true) (canonicalize name)
      → Distinct stack
      → IsWithin stack names
      → length names < fuel + length stack
      → length names < fuel' + length stack
      → install w fuel name version channel stack s ≡ install w fuel' name version channel stack s
  unfolding install
  install-enough zero fuel' name version channel stack s known d within enough enough' =
      ground (arith, length-IsWithin stack names d within)
  install-enough (suc fuel) zero name version channel stack s known d within enough enough' =
      ground (arith, length-IsWithin stack names d within)
  install-enough (suc fuel) (suc fuel') name version channel stack s known d within enough enough' =
      install_canonical-same _ _ (canonicalize name) version channel stack s (
        Holds-weaken (λ n. has_id n names ≡ true) _ (canonicalize name)
          (λ n here fresh dep exact u there.
            let longer = length-append stack (n ∷ []) in
            install-enough fuel fuel' dep exact channel (stack ++ n ∷ []) u
              (closed.canonical dep there) (Distinct-append stack n d fresh)
              (IsWithin-append stack names n within here) (ground (arith, enough, longer))
              (ground (arith, enough', longer)))
          known)
