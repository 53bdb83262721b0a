-- ===== src/Zpip/Search/Best.antt =====
-- That the hits of a search are the best candidates of their names (app/zmux/zpip.py).
use mathlib.Core.Option.{some-injective}
use zabawheels.Prelude.{
  ◌≡◌, refl, sym, ap, ◌∙◌, ◌⊎◌, inl, inr, ℕ, zero, Bool, true, false, Option, none, some, List, [],
  ◌∷◌, Text, bytes_eq, bytes_eq_iff, bytes_eq_refl, arith, if◌then◌else◌, subst, if-elim_eq,
  Bool-cases,
}
use zabawheels.Prelude.Dict.{lookup, lookup-insert}
use zabawheels.Zpip.Store.{Db}
use zabawheels.Zpip.Search.{
  Candidate, Hit, priority, norm, rank, is_lighter, is_better, hit_of, consider_ranked, consider,
  consider_all,
}

-- What holds of every candidate, and of some.
abbrev pub Every : (Candidate → Type 0) → List Candidate → Type 0
Every P [] = Unit
Every P (c ∷ cs) = P c × Every P cs

abbrev pub Any : (Candidate → Type 0) → List Candidate → Type 0
Any P [] = (zero ≡ 1)
Any P (c ∷ cs) = P c ⊎ Any P cs

-- No hit of a table is lighter than one that replaced it.
lighter_trans :
    (r p : ℕ) (h k : Hit)
    → is_lighter r p h ≡ false
    → is_lighter h.rank h.weight k ≡ false
    → is_lighter r p k ≡ false
lighter_trans r p h k a b = ground (arith, a, b)

lighter_replaced :
    (r p : ℕ) (h k : Hit)
    → is_lighter r p h ≡ true
    → is_lighter r p k ≡ false
    → is_lighter h.rank h.weight k ≡ false
lighter_replaced r p h k a b = ground (arith, a, b)

module _ (to_lower : Text → Text) (tokens : List Text) (db : Db) (key : Text) where
  abbrev is_here : Candidate → Bool
  is_here c = bytes_eq (norm to_lower c.name) key

  abbrev rank_of : Candidate → Option ℕ
  rank_of c = rank to_lower tokens c.name c.summary

  abbrev step_with : Bool → Option ℕ → Candidate → Option Hit → Option Hit
  step_with false rk c o = o
  step_with true none c o = o
  step_with true (some r) c o =
      if is_better r (priority c.source) o then some (hit_of to_lower db r c) else o

  -- The hit is a candidate of this name, at its rank.
  abbrev IsFrom : Hit → Candidate → Type 0
  IsFrom h c = (is_here c ≡ true) × ((rank_of c ≡ some h.rank) × (h ≡ hit_of to_lower db h.rank c))

  abbrev IsNoBetter : Hit → Candidate → Type 0
  IsNoBetter h c =
      is_here c ≡ true → (r : ℕ) → rank_of c ≡ some r → is_lighter r (priority c.source) h ≡ false

  abbrev NotLighter : Option Hit → Hit → Type 0
  NotLighter none h = Unit
  NotLighter (some old) h = is_lighter old.rank old.weight h ≡ false

  -- What a hit that the table had, and the candidates, make of the name.
  abbrev Chosen : Option Hit → List Candidate → Option Hit → Type 0
  Chosen old cs none = (old ≡ none) × Every (λ c. is_here c ≡ true → rank_of c ≡ none) cs
  Chosen old cs (some h) =
      ((old ≡ some h) ⊎ Any (IsFrom h) cs) × (NotLighter old h × Every (IsNoBetter h) cs)

  lookup-consider_ranked :
      (rk : Option ℕ) (c : Candidate) (hits : List (Text × Hit))
      → lookup key (consider_ranked to_lower rk db c hits)
        ≡ step_with (is_here c) rk c (lookup key hits)
  unfolding consider_ranked
  lookup-consider_ranked none c hits = elim (Bool-cases (is_here c)) [
    | inl same ↦ rw same refl
    | inr other ↦ rw other refl
  ]
  lookup-consider_ranked (some r) c hits =
      let hit = hit_of to_lower db r c in
      let name = norm to_lower c.name in
      let at = lookup-insert name key hit hits in
      elim (Bool-cases (is_here c)) [
        | inl same ↦
            let e = (bytes_eq_iff name key).0 same in
            rw (same, sym e)
              (if-elim_eq {A = List (Text × Hit)}
                (λ d. lookup name d ≡ (
                  if is_better r (priority c.source) (lookup name hits)
                  then some hit
                  else lookup name hits))
                (is_better r (priority c.source) (lookup name hits))
                (λ better.
                  rw better (lookup-insert name name hit hits ∙ rw (bytes_eq_refl name) refl))
                (λ worse. rw worse refl))
        | inr other ↦ rw other (
            if-elim_eq {A = List (Text × Hit)} (λ d. lookup key d ≡ lookup key hits)
              (is_better r (priority c.source) (lookup name hits)) (λ better. at ∙ rw other refl)
              (λ worse. refl))
      ]

  later :
      (old : Option Hit) (h : Hit) (c : Candidate) (cs : List Candidate)
      → (old ≡ some h) ⊎ Any (IsFrom h) cs
      → (old ≡ some h) ⊎ Any (IsFrom h) (c ∷ cs)
  later old h c cs (inl o) = inl o
  later old h c cs (inr a) = inr (inr a)

  IsNoBetter-rank_of :
      (r : ℕ) (h : Hit) (c : Candidate)
      → rank_of c ≡ some r
      → is_lighter r (priority c.source) h ≡ false
      → IsNoBetter h c
  IsNoBetter-rank_of r h c f light same r' k =
      ap (λ x. is_lighter x (priority c.source) h) (some-injective r' r (sym k ∙ f)) ∙ light

  -- When the candidate becomes the hit of its name.
  Chosen-placed :
      (r : ℕ) (c : Candidate) (old : Option Hit) (cs : List Candidate) (res : Option Hit)
      → is_here c ≡ true
      → rank_of c ≡ some r
      → ((h : Hit) → is_lighter r (priority c.source) h ≡ false → NotLighter old h)
      → Chosen (some (hit_of to_lower db r c)) cs res
      → Chosen old (c ∷ cs) res
  Chosen-placed r c old cs none e f beats (o, every) = cc o
  Chosen-placed r c old cs (some h) e f beats (from, (light, every)) =
      (here from, (beats h light, (IsNoBetter-rank_of r h c f light, every)))
    where
      here :
          (some (hit_of to_lower db r c) ≡ some h) ⊎ Any (IsFrom h) cs
          → (old ≡ some h) ⊎ Any (IsFrom h) (c ∷ cs)
      here (inr a) = inr (inr a)
      here (inl same) =
          let it = some-injective (hit_of to_lower db r c) h same in
          let at = ap (λ k. k.rank) it in
          inr (inl (e, (f ∙ ap some at, sym it ∙ ap (λ x. hit_of to_lower db x c) at)))

  -- When it meets an old hit.
  Chosen-met :
      (better : Bool) (r : ℕ) (c : Candidate) (o : Hit) (cs : List Candidate) (res : Option Hit)
      → is_lighter r (priority c.source) o ≡ better
      → is_here c ≡ true
      → rank_of c ≡ some r
      → Chosen (if better then some (hit_of to_lower db r c) else some o) cs res
      → Chosen (some o) (c ∷ cs) res
  Chosen-met true r c o cs res b e f chosen =
      Chosen-placed r c (some o) cs res e f
        (λ h light. lighter_replaced r (priority c.source) o h b light) chosen
  Chosen-met false r c o cs none b e f (was, every) = cc was
  Chosen-met false r c o cs (some h) b e f (from, (light, every)) = (
    later (some o) h c cs from,
    (light, (IsNoBetter-rank_of r h c f (lighter_trans r (priority c.source) o h b light), every)),
  )

  -- A round more: what holds of the rest, from what the first candidate makes of the old hit.
  Chosen-step_with :
      (here : Bool) (rk : Option ℕ) (c : Candidate) (old : Option Hit) (cs : List Candidate)
      (res : Option Hit)
      → is_here c ≡ here
      → rank_of c ≡ rk
      → Chosen (step_with here rk c old) cs res
      → Chosen old (c ∷ cs) res
  unfolding is_better
  Chosen-step_with false rk c old cs none e f (o, every) = (o, ((λ same. cc (same, e)), every))
  Chosen-step_with false rk c old cs (some h) e f (from, (light, every)) =
      (later old h c cs from, (light, ((λ same r k. cc (same, e)), every)))
  Chosen-step_with true none c old cs none e f (o, every) = (o, ((λ same. f), every))
  Chosen-step_with true none c old cs (some h) e f (from, (light, every)) =
      (later old h c cs from, (light, ((λ same r k. cc (k, f)), every)))
  Chosen-step_with true (some r) c none cs res e f chosen =
      Chosen-placed r c none cs res e f (λ h light. tt) chosen
  Chosen-step_with true (some r) c (some o) cs res e f chosen =
      Chosen-met (is_lighter r (priority c.source) o) r c o cs res refl e f chosen

  consider_all-Chosen :
      (cs : List Candidate) (hits : List (Text × Hit))
      → Chosen (lookup key hits) cs (lookup key (consider_all to_lower tokens db cs hits))
  unfolding consider_all consider
  consider_all-Chosen [] hits = unchanged (lookup key hits)
    where
      unchanged : (o : Option Hit) → Chosen o [] o
      unchanged none = (refl, tt)
      unchanged (some h) = (inl refl, (ground arith, tt))
  consider_all-Chosen (c ∷ cs) hits =
      Chosen-step_with (is_here c) (rank_of c) c (lookup key hits) cs _ refl refl (
        subst
          (λ o.
            Chosen o cs (
              lookup key (consider_all to_lower tokens db cs (consider to_lower tokens db c hits))))
          (lookup-consider_ranked (rank_of c) c hits)
          (consider_all-Chosen cs (consider to_lower tokens db c hits)))

  abbrev pub IsBest : List Candidate → Option Hit → Type 0
  IsBest cs none = Every (λ c. is_here c ≡ true → rank_of c ≡ none) cs
  IsBest cs (some h) = Any (IsFrom h) cs × Every (IsNoBetter h) cs

  Chosen-IsBest : (cs : List Candidate) (res : Option Hit) → Chosen none cs res → IsBest cs res
  Chosen-IsBest cs none (o, every) = every
  Chosen-IsBest cs (some h) (from, (light, every)) = (left from, every)
    where
      left : (none ≡ some h) ⊎ Any (IsFrom h) cs → Any (IsFrom h) cs
      left (inl o) = cc o
      left (inr a) = a

  -- After the calls of `_consider` the table has, for every name in its normal form, a hit exactly if a candidate
  -- of that name matches the tokens; the hit is one of these candidates, with its rank, and none of them is
  -- lighter, by rank and then by source.
  pub consider_all-IsBest :
      (cs : List Candidate) → IsBest cs (lookup key (consider_all to_lower tokens db cs []))
  unfolding lookup
  consider_all-IsBest cs = Chosen-IsBest cs _ (consider_all-Chosen cs [])
