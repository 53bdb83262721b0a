-- ===== src/Zpip/Install/Transaction.antt =====
-- That the transaction of `install` (app/zmux/zpip.py) is all or nothing, unless it cannot be undone.
use zabawheels.Prelude.{
  ◌≡◌, refl, ap, ◌∙◌, ◌⊎◌, inl, inr, Bool, true, false, not, ◌&&◌, none, List, [], ◌∷◌, Bytes, Text,
  if◌then◌else◌, if-elim, Bool-cases,
}
use zabawheels.Prelude.Dict.{has_id, Distinct, lookup, insert}
use zabawheels.Zpip.Disk.{Disk, empty_disk, Commit, commit_files, roll_back, remove_obsolete}
use zabawheels.Zpip.Disk.Rollback.{
  IsUndoable, Apart, commit_files-IsUndoable, HasStuck, unlisted, RolledBack, roll_back-RolledBack,
  restored-IsUndoable, committed-commit_files,
}
use zabawheels.Zpip.Disk.Committed.{
  is_obsolete, remove_obsolete-some, remove_obsolete-all, commit_files-at,
}
use zabawheels.Zpip.Store.{Package, Store}
use zabawheels.Zpip.Install.{
  World, Ending, done, undone, stuck, paths, staged, previous_files, undo, transact,
}

-- What a path holds after the transaction: all of it is done; or the database and the path are as they were,
-- but for an obsolete file that was removed before a later step failed; or, where some file of the wheel
-- cannot be restored, this is so of every path that the wheel has not.
abbrev pub Transacted :
    World
    → Text
    → Package
    → List (Text × Bytes)
    → List Text
    → Store
    → Text
    → Ending × Store
    → Type 0
Transacted w name new files previous s q (undone, s') =
    (s'.db ≡ s.db)
    × ((s'.disk q ≡ s.disk q)
        ⊎ ((is_obsolete previous (paths files) q ≡ true) × (s'.disk q ≡ none)))
Transacted w name new files previous s q (stuck, s') =
    (s'.db ≡ s.db)
    × ((has_id q (paths files) ≡ true)
        ⊎ ((s'.disk q ≡ s.disk q)
            ⊎ ((is_obsolete previous (paths files) q ≡ true) × (s'.disk q ≡ none))))
    × HasStuck w.restorable (paths files)
Transacted w name new files previous s q (done, s') =
    (s'.db ≡ insert name new s.db)
    × (s'.disk q ≡ (
        if has_id q (paths files)
        then staged files q
        else if has_id q previous
        then none
        else s.disk q))

-- Undoing, whatever obsolete files were removed before.
undo-rolled :
    (w : World) (name : Text) (new : Package) (files : List (Text × Bytes)) (previous : List Text)
    (s : Store) (c : Commit) (disk : Disk) (q : Text) (r : Disk × Bool)
    → IsUndoable s.disk c
    → ((p : Text) → has_id p c.committed ≡ true → has_id p (paths files) ≡ true)
    → (disk q ≡ c.disk q) ⊎ ((is_obsolete previous (paths files) q ≡ true) × (disk q ≡ none))
    → RolledBack w.restorable c.saved c.committed disk q r
    → Transacted w name new files previous s q
        (if r.1 then undone else stuck, record s { disk = r.0 })
undo-rolled w name new files previous s c disk q (d, true) u listed (inl same) e = (
  refl,
  inl (
      e
      ∙ ap (λ v. if has_id q c.committed then c.saved q else v) same
      ∙ restored-IsUndoable s.disk c q u),
)
undo-rolled w name new files previous s c disk q (d, true) u listed (inr (old, gone)) e =
    elim (Bool-cases (has_id q c.committed)) [
      | inl there ↦ (refl, inl (e ∙ rw there (u.backed_up q there)))
      | inr left ↦ (refl, inr (old, e ∙ rw left gone))
    ]
undo-rolled w name new files previous s c disk q (d, false) u listed before (e, (p, there, bad)) = (
  refl,
  elim (Bool-cases (has_id q c.committed)) [
    | inl committed ↦ inl (listed q committed)
    | inr left ↦
        let same : d q ≡ disk q = unlisted c.saved d disk q c.committed left e in
        inr (elim before [
          | inl kept ↦ inl (same ∙ kept ∙ u.untouched q left)
          | inr (old, gone) ↦ inr (old, same ∙ gone)
        ])
  ],
  (p, listed p there, bad),
)

-- The two steps of a transaction that goes through, put together.
both_steps :
    {A : Type 0} (in_new in_old : Bool) (staged before nothing disk : A)
    → disk ≡ (if in_new then staged else before)
    → (if in_old && not in_new then nothing else disk)
      ≡ (if in_new then staged else if in_old then nothing else before)
both_steps true true staged before nothing disk e = e
both_steps true false staged before nothing disk e = e
both_steps false true staged before nothing disk e = refl
both_steps false false staged before nothing disk e = e

start-IsUndoable :
    (disk : Disk) → IsUndoable disk (record { disk = disk; saved = empty_disk; committed = [] })
unfolding has_id
start-IsUndoable disk = record {
  untouched = λ q h. refl;
  backed_up = λ q h. cc h;
  no_more = λ q h. refl;
}

all_Apart : (paths : List Text) → Apart paths []
unfolding has_id
all_Apart [] = tt
all_Apart (path ∷ paths) = (refl, all_Apart paths)

-- For a wheel without a path twice, at every path: when the transaction goes through, the database has the
-- new record, the wheel's files are in place, the old package's other files are gone, and the rest is
-- as it was. When it fails and is undone, the database is as it was, and so is the path, unless it is a
-- file of the old package that the wheel has not, which may be gone. When undoing it fails as well, the same
-- holds of the database and of each path that is no file of the wheel, and some file of the wheel is one
-- that cannot be restored.
pub transact-Transacted :
    (w : World) (name : Text) (new : Package) (files : List (Text × Bytes)) (s : Store) (q : Text)
    → Distinct (paths files)
    → Transacted w name new files
        (previous_files (lookup name s.db))
        s
        q
        (transact w name new files s)
unfolding transact undo has_id
transact-Transacted w name new files s q d =
    let start : Commit = record { disk = s.disk; saved = empty_disk; committed = [] } in
    let run : Commit × Bool = commit_files w.writable (staged files) (paths files) start in
    let old = previous_files (lookup name s.db) in
    let u : IsUndoable s.disk run.0 =
      commit_files-IsUndoable w.writable s.disk (staged files) (paths files) start d
        (all_Apart (paths files)) (start-IsUndoable s.disk) in
    let cleaned = remove_obsolete w.removable (paths files) old run.0.disk in
    let rolled =
      λ (disk : Disk)
          (h : (disk q ≡ run.0.disk q)
            ⊎ ((is_obsolete old (paths files) q ≡ true) × (disk q ≡ none))).
        undo-rolled w name new files old s run.0 disk q
          (roll_back w.restorable run.0.saved run.0.committed disk) u
          (λ p. committed-commit_files w.writable (staged files) p (paths files) start) h
          (roll_back-RolledBack w.restorable run.0.saved run.0.committed disk q) in
    let undone_at_once = rolled run.0.disk (inl refl) in
    let undone_after =
      rolled cleaned.0 (remove_obsolete-some w.removable (paths files) old run.0.disk q) in
    let P : Ending × Store → Type 0 = Transacted w name new files old s q in
    elim (commit_files-at w.writable (staged files) (paths files) start q) [
      | inl stopped ↦ rw stopped undone_at_once
      | inr through ↦
          if-elim {A = Ending × Store} P (not run.1) undone_at_once
            (elim (remove_obsolete-all w.removable (paths files) old run.0.disk q) [
              | inl stopped ↦ rw stopped undone_after
              | inr removed ↦ if-elim {A = Ending × Store} P (not cleaned.1) undone_after (
                  if-elim {A = Ending × Store} P (not w.can_save) undone_after (
                    refl,
                    removed
                        ∙ both_steps (has_id q (paths files)) (has_id q old) (staged files q)
                            (s.disk q) none (run.0.disk q) through,
                  ))
            ])
    ]
