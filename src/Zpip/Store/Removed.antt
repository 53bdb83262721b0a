-- ===== src/Zpip/Store/Removed.antt =====
-- What `uninstall` (app/zmux/zpip.py) takes away, and that it takes away no more.
use zabawheels.Prelude.{
  ◌≡◌, refl, sym, ap, ◌∙◌, ℕ, suc, Bool, true, ◌&&◌, none, some, List, [], ◌∷◌, Text, bytes_eq,
  bytes_eq_iff, if◌then◌else◌, if-elim_eq, Option-cases, inl, inr,
}
use zabawheels.Prelude.Dict.{has_id, Distinct, keys, lookup, lookup-delete}
use zabawheels.Zpip.Disk.{Disk, put_file, remove_files}
use zabawheels.Zpip.Disk.Rounds.{round_removes, round_passes}
use zabawheels.Zpip.Store.{Package, Store, is_below, uninstall_found, uninstall_canonical}

remove_files-at :
    (within : Text → Bool) (paths : List Text) (removed : ℕ) (disk : Disk) (q : Text)
    → (remove_files within paths removed disk).0 q
      ≡ (if has_id q paths && within q then none else disk q)
unfolding remove_files put_file has_id
remove_files-at within [] removed disk q = refl
remove_files-at within (path ∷ paths) removed disk q =
    let name = λ (h : bytes_eq path q ≡ true). (bytes_eq_iff path q).0 h in
    elim (Option-cases (disk path)) [
      | inl absent ↦
          rw (absent, remove_files)
            (remove_files-at within paths removed disk q
              ∙ round_passes (bytes_eq path q) (has_id q paths) (within q) none (disk q)
                  (λ same. inr (ap disk (sym (name same)) ∙ absent)))
      | inr (content, there) ↦
          rw (there, remove_files)
            (if-elim_eq {A = Disk × ℕ}
              (λ r. r.0 q ≡ (if has_id q (path ∷ paths) && within q then none else disk q))
              (within path)
              (λ below.
                remove_files-at within paths (suc removed) (put_file path none disk) q
                ∙ round_removes (bytes_eq path q) (has_id q paths) (within q) none (disk q)
                    (λ same. ap within (sym (name same)) ∙ below))
              (λ outside.
                remove_files-at within paths removed disk q
                ∙ round_passes (bytes_eq path q) (has_id q paths) (within q) none (disk q)
                    (λ same. inl (ap within (sym (name same)) ∙ outside))))
    ]

-- When a package is installed, `uninstall` removes exactly those of its files that stand below the
-- packages' directory, and exactly its record: every other path and every other package is as it was.
-- The database has no name twice.
pub uninstall_canonical-some :
    (base : List Text) (name : Text) (found : Package) (s : Store) (q other : Text)
    → Distinct (keys s.db)
    → lookup name s.db ≡ some found
    → ((uninstall_canonical base name s).1.disk q
        ≡ (if has_id q found.files && is_below base q then none else s.disk q))
      × (lookup other (uninstall_canonical base name s).1.db
          ≡ (if bytes_eq name other then none else lookup other s.db))
unfolding uninstall_canonical uninstall_found
uninstall_canonical-some base name found s q other d e =
    rw e (remove_files-at (is_below base) found.files 0 s.disk q, lookup-delete name other s.db d)
