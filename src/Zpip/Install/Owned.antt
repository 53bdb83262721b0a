-- ===== src/Zpip/Install/Owned.antt =====
-- That no file is of two packages: the ownership that `install` and `uninstall` (app/zmux/zpip.py) keep.
use zabawheels.Prelude.{
  ◌≡◌, refl, sym, ap, ◌∙◌, ℕ, Bool, true, false, ◌||◌, Option, none, some, List, [], ◌∷◌, Bytes,
  Text, bytes_eq, bytes_eq_iff, arith, if◌then◌else◌, if-elim_eq, subst, ◌⊎◌, Bool-cases, inl, inr,
}
use mathlib.Core.Option.{some-injective}
use zabawheels.Prelude.Dict.{
  has_id, Distinct, keys, lookup, insert, delete, keys-insert, keys-delete, lookup-insert,
  lookup-delete, Distinct-append, Distinct-remove, bytes_eq_comm,
}
use zabawheels.Zpip.Modules.{add_sorted, sorted_names}
use zabawheels.Zpip.Store.{Package, Db, Store}
use zabawheels.Zpip.Install.{World, paths, any_of, has_collision, install}
use zabawheels.Zpip.Install.Kept.{install-Keeps}

-- Each name has one record, and a file stands in the record of one name.
pub record IsOwned (db : Db) : Type 0 where
  pub distinct : Distinct (keys db)
  pub single :
      (a b q : Text) (x y : Package)
      → lookup a db ≡ some x
      → lookup b db ≡ some y
      → has_id q x.files ≡ true
      → has_id q y.files ≡ true
      → bytes_eq a b ≡ true

has_id-add_sorted :
    (q name : Text) (names : List Text)
    → has_id q (add_sorted name names) ≡ (bytes_eq name q || has_id q names)
unfolding has_id add_sorted
has_id-add_sorted q name [] = refl
has_id-add_sorted q name (x ∷ names) =
    ground (arith, has_id-add_sorted q name names, bytes_eq_iff name x)

has_id-sorted_names :
    (q : Text) (names : List Text) → has_id q (sorted_names names) ≡ has_id q names
unfolding has_id sorted_names
has_id-sorted_names q [] = refl
has_id-sorted_names q (x ∷ names) =
    has_id-add_sorted q x (sorted_names names)
    ∙ ap (λ v. bytes_eq x q || v) (has_id-sorted_names q names)

not_any_of :
    (q : Text) (files owned : List Text)
    → any_of files owned ≡ false
    → has_id q files ≡ true
    → has_id q owned ≡ false
unfolding any_of has_id
not_any_of q files [] free h = refl
not_any_of q files (path ∷ owned) free h = elim (Bool-cases (bytes_eq path q)) [
  | inl same ↦
      let e = ap (λ x. has_id x files) ((bytes_eq_iff path q).0 same) in ground (arith, free, h, e)
  | inr other ↦ rw other (not_any_of q files owned (ground (arith, free)) h)
]

-- A file of the wheel is of no other package.
not_has_collision :
    (name b q : Text) (files : List Text) (db : Db) (y : Package)
    → has_collision name files db ≡ false
    → lookup b db ≡ some y
    → bytes_eq b name ≡ false
    → has_id q files ≡ true
    → has_id q y.files ≡ false
unfolding has_collision lookup
not_has_collision name b q files [] y free e other h = cc
not_has_collision name b q files ((k, found) ∷ db) y free e other h =
    elim (Bool-cases (bytes_eq k b)) [
      | inr differ ↦
          not_has_collision name b q files db y (ground (arith, free)) (ground (arith, e, differ))
            other h
      | inl same ↦
          let here : some found ≡ some y =
            ap (λ v. if v then some found else lookup b db) (sym same) ∙ e in
          let apart : bytes_eq k name ≡ false =
            ap (λ x. bytes_eq x name) ((bytes_eq_iff k b).0 same) ∙ other in
          ap (λ x. has_id q x.files) (sym (some-injective found y here))
          ∙ not_any_of q files found.files (ground (arith, free, apart)) h
    ]

-- What a name holds after an insertion: the new record, or what it held.
inserted :
    (name c : Text) (new z : Package) (db : Db)
    → lookup c (insert name new db) ≡ some z
    → ((bytes_eq name c ≡ true) × (new ≡ z)) ⊎ ((bytes_eq name c ≡ false) × (lookup c db ≡ some z))
inserted name c new z db h =
    let at = λ (test : Bool) (e : bytes_eq name c ≡ test).
      ap (λ v. if v then some new else lookup c db) (sym e)
      ∙ sym (lookup-insert name c new db)
      ∙ h in
    elim (Bool-cases (bytes_eq name c)) [
      | inl same ↦ inl (same, some-injective new z (at true same))
      | inr other ↦ inr (other, at false other)
    ]

pub IsOwned-insert :
    (name : Text) (new : Package) (files : List (Text × Bytes)) (db : Db)
    → has_collision name (paths files) db ≡ false
    → new.files ≡ sorted_names (paths files)
    → IsOwned db
    → IsOwned (insert name new db)
IsOwned-insert name new files db free e o = record {
  distinct = subst Distinct (sym (keys-insert name new db)) (
      if-elim_eq Distinct (has_id name (keys db)) (λ _. o.distinct)
        (λ fresh. Distinct-append (keys db) name o.distinct fresh));
  single = λ a b q x y ha hb qa qb.
      let mine = λ (z : Package) (same : new ≡ z) (h : has_id q z.files ≡ true).
        sym (has_id-sorted_names q (paths files))
        ∙ ap (has_id q) (sym e)
        ∙ ap (λ v. has_id q v.files) same
        ∙ h in
      let theirs =
        λ (c : Text) (z : Package) (other : bytes_eq name c ≡ false) (h : lookup c db ≡ some z).
          not_has_collision name c q (paths files) db z free h (bytes_eq_comm c name ∙ other) in
      elim (inserted name a new x db ha) [
        | inl (is_a, new_x) ↦ elim (inserted name b new y db hb) [
          | inl (is_b, new_y) ↦
              ground (arith, is_a, is_b, bytes_eq_iff name a, bytes_eq_iff name b, bytes_eq_iff a b)
          | inr (not_b, old_y) ↦ cc (theirs b y not_b old_y (mine x new_x qa), qb)
        ]
        | inr (not_a, old_x) ↦ elim (inserted name b new y db hb) [
          | inl (is_b, new_y) ↦ cc (theirs a x not_a old_x (mine y new_y qb), qa)
          | inr (not_b, old_y) ↦ o.single a b q x y old_x old_y qa qb
        ]
      ];
}

pub IsOwned-delete : (name : Text) (db : Db) → IsOwned db → IsOwned (delete name db)
IsOwned-delete name db o = record {
  distinct = subst Distinct (sym (keys-delete name db)) (Distinct-remove name (keys db) o.distinct);
  single = λ a b q x y ha hb qa qb.
      let at = λ (c : Text) (z : Package) (h : lookup c (delete name db) ≡ some z).
        deleted c z (bytes_eq name c) (sym (lookup-delete name c db o.distinct) ∙ h) in
      o.single a b q x y (at a x ha) (at b y hb) qa qb;
}
  where
    deleted :
        (c : Text) (z : Package) (test : Bool)
        → (if test then none else lookup c db) ≡ some z
        → lookup c db ≡ some z
    deleted c z true h = cc
    deleted c z false h = h

pub no_packages-IsOwned : IsOwned []
unfolding lookup
no_packages-IsOwned = record { distinct = tt; single = λ a b q x y ha hb qa qb. cc ha }

-- Where no file is of two packages, none is after an `install`, whatever it answers: with all the
-- installs of dependencies, the replaced wheels, and the packages that a failure uninstalls.
pub install-IsOwned :
    (w : World) (fuel : ℕ) (name : Text) (version : Option Text) (channel : Text)
    (stack : List Text) (s : Store)
    → IsOwned s.db
    → IsOwned (install w fuel name version channel stack s).1.db
install-IsOwned w = install-Keeps w IsOwned IsOwned-insert IsOwned-delete
