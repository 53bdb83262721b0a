-- ===== src/Zpip/Install/Kept.antt =====
-- What every insertion and deletion of the installer keeps, `install` (app/zmux/zpip.py) keeps, with all the
-- installs of dependencies and all the uninstalls that a failure brings.
use zabawheels.Prelude.{
  ◌≡◌, refl, ℕ, zero, suc, Bool, false, not, ◌||◌, Option, none, some, List, [], ◌∷◌, ◌++◌, Bytes,
  Text, codes, if-elim, if-elim_eq, Option-cases, inl, inr, is_empty,
}
use zabawheels.Prelude.Outcome.{
  Outcome, raised, returned, Holds, Holds-bind, Holds-returned, Outcome-cases,
}
use zabawheels.Prelude.Dict.{has_id, lookup, insert, delete}
use zabawheels.Prelude.Json.{Json, string}
use zabawheels.Zpip.Names.{canonicalize}
use zabawheels.Zpip.Modules.{sorted_names}
use zabawheels.Zpip.Catalog.{get_default, Requirement, resolve, manifest_requirements}
use zabawheels.Zpip.Disk.{empty_disk, Commit, commit_files, remove_obsolete}
use zabawheels.Zpip.Store.{Package, Db, Store, uninstall_found, uninstall_canonical}
use zabawheels.Zpip.Install.{
  Ending, done, undone, stuck, World, Answer, is_ok, Wheel, paths, satisfies, has_collision,
  transact, package_of, was_explicit, uninstall_all, give_up, conclude, staged, previous_files,
  commit_wheel, install_wheel, fetch_wheel, Resolved, add_dependency, meet_requirement,
  meet_requirements, after_requirements, with_requirements, with_manifest, install_as,
  install_canonical, install, undo,
}

package_of-files :
    (w : World) (manifest : Json) (channel : Text) (wheel : Wheel) (explicit : Bool)
    → Holds
        (λ (new : Package). new.files ≡ sorted_names (paths wheel.files))
        (package_of w manifest channel wheel explicit)
unfolding package_of
package_of-files w manifest channel wheel explicit =
    let Any : Json → Type 0 = λ _. Unit {0} in
    let Q : Package → Type 0 = λ new. new.files ≡ sorted_names (paths wheel.files) in
    Holds-bind Any Q (get_default (codes "version") (string []) manifest) _ (any _) (λ v _.
      Holds-bind Any Q (get_default (codes "runtime_id") (string []) manifest) _ (any _) (λ r _.
        Holds-bind Any Q (get_default (codes "abi") (string []) manifest) _ (any _) (λ a _.
          Holds-bind Any Q (get_default (codes "channel") (string channel) manifest) _ (any _)
            (λ c _. refl))))
  where
    any : {A : Type 0} (o : Outcome A) → Holds (λ _. Unit {0}) o
    any (raised e) = tt
    any (returned a) = tt

module _ (w : World) (P : Db → Type 0)
    (on_insert : (name : Text) (new : Package) (files : List (Text × Bytes)) (db : Db)
      → has_collision name (paths files) db ≡ false
      → new.files ≡ sorted_names (paths files)
      → P db
      → P (insert name new db))
    (on_delete : (name : Text) (db : Db) → P db → P (delete name db)) where
  -- The database of an answer's store.
  abbrev Keeps : {A : Type 0} → A × Store → Type 0
  Keeps (answer, s) = P s.db

  uninstall_found-Keeps :
      (name : Text) (o : Option Package) (s : Store)
      → P s.db
      → P (uninstall_found w.base name o s).1.db
  unfolding uninstall_found
  uninstall_found-Keeps name none s h = h
  uninstall_found-Keeps name (some old) s h = on_delete name s.db h

  pub uninstall_canonical-Keeps :
      (name : Text) (s : Store) → P s.db → P (uninstall_canonical w.base name s).1.db
  unfolding uninstall_canonical
  uninstall_canonical-Keeps name s h = uninstall_found-Keeps name (lookup name s.db) s h

  uninstall_all-Keeps : (deps : List Text) (s : Store) → P s.db → P (uninstall_all w deps s).db
  unfolding uninstall_all
  uninstall_all-Keeps [] s h = h
  uninstall_all-Keeps (dep ∷ deps) s h =
      uninstall_canonical-Keeps dep (uninstall_all w deps s) (uninstall_all-Keeps deps s h)

  give_up-Keeps :
      (name error : Text) (deps : List Text) (s : Store)
      → P s.db
      → Keeps (give_up w name error deps s)
  unfolding give_up
  give_up-Keeps name error deps s h = uninstall_all-Keeps deps s h

  transact-Keeps :
      (name : Text) (new : Package) (files : List (Text × Bytes)) (s : Store)
      → P s.db
      → P (insert name new s.db)
      → Keeps (transact w name new files s)
  unfolding transact undo
  transact-Keeps name new files s h i =
      let start : Commit = record { disk = s.disk; saved = empty_disk; committed = [] } in
      let run : Commit × Bool = commit_files w.writable (staged files) (paths files) start in
      let removed =
        (remove_obsolete w.removable (paths files) (previous_files (lookup name s.db))
          run.0.disk).1 in
      let Kept : Ending × Store → Type 0 = Keeps in
      if-elim Kept (not run.1) h (if-elim Kept (not removed) h (if-elim Kept (not w.can_save) h i))

  conclude-Keeps :
      (name : Text) (new : Package) (deps : List Text) (r : Ending × Store)
      → Keeps r
      → Keeps (conclude w name new deps r)
  conclude-Keeps name new deps (done, s) h = h
  conclude-Keeps name new deps (stuck, s) h = h
  conclude-Keeps name new deps (undone, s) h = give_up-Keeps name _ deps s h

  install_wheel-Keeps :
      (name : Text) (manifest : Json) (channel : Text) (by_name : Bool) (deps : List Text)
      (o : Outcome Wheel) (s : Store)
      → P s.db
      → Keeps (install_wheel w name manifest channel by_name deps o s)
  unfolding install_wheel commit_wheel
  install_wheel-Keeps name manifest channel by_name deps (raised e) s h =
      give_up-Keeps name e deps s h
  install_wheel-Keeps name manifest channel by_name deps (returned wheel) s h =
      let explicit = was_explicit (lookup name s.db) || by_name in
      if-elim_eq {A = Answer × Store} Keeps (has_collision name (paths wheel.files) s.db)
        (λ _. give_up-Keeps name _ deps s h)
        (λ free. elim (Outcome-cases (package_of w manifest channel wheel explicit)) [
          | inl (error, e) ↦ rw e (give_up-Keeps name error deps s h)
          | inr (new, e) ↦
              let files =
                Holds-returned (λ (new : Package). new.files ≡ sorted_names (paths wheel.files)) e
                  (package_of-files w manifest channel wheel explicit) in
              rw e (
                conclude-Keeps name new deps _ (
                  transact-Keeps name new wheel.files s h
                    (on_insert name new wheel.files s.db free files h)))
        ])

  module _ (rec : Text → Option Text → Store → Answer × Store)
      (rec-Keeps : (dep : Text) (exact : Option Text) (s : Store)
        → P s.db
        → Keeps (rec dep exact s)) where
    add_dependency-Keeps :
        (dep : Text) (r : Requirement) (deps : List Text) (s : Store)
        → P s.db
        → P (add_dependency rec dep r deps s).store.db
    unfolding add_dependency
    add_dependency-Keeps dep r deps s h =
        let kept = rec-Keeps dep r.exact s h in
        let Kept : Resolved → Type 0 = λ found. P found.store.db in
        if-elim Kept (not (is_ok (rec dep r.exact s).0)) kept
          (if-elim Kept (not (satisfies (lookup dep (rec dep r.exact s).1.db) r)) kept kept)

    meet_requirement-Keeps :
        (r : Requirement) (dep : Outcome Text) (before : Db) (deps : List Text) (s : Store)
        → P s.db
        → P (meet_requirement rec r dep before deps s).store.db
    unfolding meet_requirement
    meet_requirement-Keeps r (raised e) before deps s h = h
    meet_requirement-Keeps r (returned dep) before deps s h =
        if-elim {A = Resolved} (λ f. P f.store.db) (satisfies (lookup dep before) r) h
          (elim (Option-cases (lookup dep before)) [
            | inr (old, e) ↦ rw e h
            | inl e ↦ rw e (add_dependency-Keeps dep r deps s h)
          ])

    meet_requirements-Keeps :
        (rs : List Requirement) (before : Db) (found : Resolved)
        → P found.store.db
        → P (meet_requirements rec rs before found).store.db
    unfolding meet_requirements
    meet_requirements-Keeps [] before found h = h
    meet_requirements-Keeps (r ∷ rs) before found h = elim (Option-cases found.error) [
      | inr (e, stopped) ↦ rw stopped h
      | inl none_yet ↦ rw none_yet (
          meet_requirements-Keeps rs before _ (
            meet_requirement-Keeps r (canonicalize r.name) before found.installed_deps found.store
              h))
    ]

    after_requirements-Keeps :
        (name : Text) (manifest : Json) (channel : Text) (by_name : Bool) (found : Resolved)
        → P found.store.db
        → Keeps (after_requirements w name manifest channel by_name found)
    unfolding after_requirements
    after_requirements-Keeps name manifest channel by_name found h =
        elim (Option-cases found.error) [
          | inr (e, stopped) ↦ rw stopped (give_up-Keeps name e found.installed_deps found.store h)
          | inl through ↦ rw through (
              install_wheel-Keeps name manifest channel by_name found.installed_deps
                (fetch_wheel w name manifest) found.store h)
        ]

    install_as-Keeps :
        (name : Text) (version : Option Text) (channel : Text) (stack : List Text) (s : Store)
        → P s.db
        → Keeps (install_as w rec name version channel stack s)
    unfolding install_as with_manifest with_requirements
    install_as-Keeps name version channel stack s h =
        if-elim {A = Answer × Store} Keeps (has_id name stack) h
          (elim (Outcome-cases (resolve w.sources name version channel)) [
            | inl (e, wrong) ↦ rw wrong (give_up-Keeps name e [] s h)
            | inr (manifest, right) ↦
                rw right (elim (Outcome-cases (manifest_requirements w.sources manifest)) [
                  | inl (e, wrong) ↦ rw wrong (give_up-Keeps name e [] s h)
                  | inr (rs, e) ↦ rw e (
                      after_requirements-Keeps name manifest channel (is_empty stack) _
                        (meet_requirements-Keeps rs s.db _ h))
                ])
          ])

  install_canonical-Keeps :
      (rec : Text → Text → Option Text → Store → Answer × Store)
      → ((caller dep : Text) (exact : Option Text) (s : Store)
          → P s.db
          → Keeps (rec caller dep exact s))
      → (name : Outcome Text) (version : Option Text) (channel : Text) (stack : List Text)
        (s : Store)
      → P s.db
      → Keeps (install_canonical w rec name version channel stack s)
  unfolding install_canonical
  install_canonical-Keeps rec kept (raised e) version channel stack s h = h
  install_canonical-Keeps rec kept (returned name) version channel stack s h =
      install_as-Keeps (rec name) (kept name) name version channel stack s h

  pub install-Keeps :
      (fuel : ℕ) (name : Text) (version : Option Text) (channel : Text) (stack : List Text)
      (s : Store)
      → P s.db
      → Keeps (install w fuel name version channel stack s)
  unfolding install
  install-Keeps zero name version channel stack s h = h
  install-Keeps (suc fuel) name version channel stack s h =
      install_canonical-Keeps _
        (λ caller dep exact u k. install-Keeps fuel dep exact channel (stack ++ caller ∷ []) u k)
        (canonicalize name) version channel stack s h
