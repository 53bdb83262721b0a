-- ===== src/Zpip/Disk/Rollback.antt =====
-- That undoing a commit restores every file, unless a file cannot be restored.
use zabawheels.Prelude.{
  ◌≡◌, refl, sym, ap, ◌∙◌, Bool, true, false, not, ◌&&◌, ◌||◌, Option, none, some, List, [], ◌∷◌,
  ◌++◌, arith, Bytes, Text, bytes_eq, bytes_eq_iff, bytes_eq_refl, ◌⊎◌, if◌then◌else◌, if-elim,
  Bool-cases, Option-cases, inl, inr,
}
use zabawheels.Prelude.Dict.{has_id, Distinct, has_id-append, bytes_eq_comm}
use zabawheels.Zpip.Disk.{
  Disk, put_file, Commit, back_up, commit_file, commit_files, restore_file, roll_back,
  remove_obsolete,
}

-- The backup of a commit tells, for every path committed, what the path held before.
pub record IsUndoable (before : Disk) (c : Commit) : Type 0 where
  pub untouched : (q : Text) → has_id q c.committed ≡ false → c.disk q ≡ before q
  pub backed_up : (q : Text) → has_id q c.committed ≡ true → c.saved q ≡ before q
  pub no_more : (q : Text) → has_id q c.committed ≡ false → c.saved q ≡ none

same_path : (p q : Text) → bytes_eq p q ≡ true → p ≡ q
same_path p q = (bytes_eq_iff p q).0

back_up-at :
    (o : Option Bytes) (path q : Text) (saved : Disk)
    → saved path ≡ none
    → back_up path o saved q ≡ (if bytes_eq path q then o else saved q)
unfolding back_up put_file
back_up-at none path q saved h = elim (Bool-cases (bytes_eq path q)) [
  | inl same ↦ rw same (ap saved (sym (same_path path q same)) ∙ h)
  | inr other ↦ rw other refl
]
back_up-at (some old) path q saved h = refl

has_id-last :
    (q path : Text) (paths : List Text)
    → has_id q (paths ++ path ∷ []) ≡ (has_id q paths || bytes_eq path q)
unfolding has_id
has_id-last q path paths = ground (arith, has_id-append q paths (path ∷ []))

commit_file-IsUndoable :
    (before staged : Disk) (path : Text) (c : Commit)
    → has_id path c.committed ≡ false
    → IsUndoable before c
    → IsUndoable before (commit_file staged path c)
unfolding commit_file put_file
commit_file-IsUndoable before staged path c new u =
    let saved = λ (q : Text). back_up-at (c.disk path) path q c.saved (u.no_more path new) in
    let members = λ (q : Text). has_id-last q path c.committed in
    record {
      untouched = λ q h. elim (Bool-cases (bytes_eq path q)) [
        | inl same ↦ ground (arith, h, members q, same)
        | inr other ↦ rw other (u.untouched q (ground (arith, h, members q, other)))
      ];
      backed_up = λ q h. elim (Bool-cases (bytes_eq path q)) [
        | inl same ↦ saved q ∙ rw same (u.untouched path new ∙ ap before (same_path path q same))
        | inr other ↦ saved q ∙ rw other (u.backed_up q (ground (arith, h, members q, other)))
      ];
      no_more = λ q h. elim (Bool-cases (bytes_eq path q)) [
        | inl same ↦ ground (arith, h, members q, same)
        | inr other ↦ saved q ∙ rw other (u.no_more q (ground (arith, h, members q, other)))
      ];
    }

-- No path of the first list stands in the second.
abbrev pub Apart : List Text → List Text → Type 0
Apart [] done = Unit
Apart (p ∷ ps) done = (has_id p done ≡ false) × Apart ps done

Apart-last :
    (ps done : List Text) (p : Text)
    → Apart ps done
    → has_id p ps ≡ false
    → Apart ps (done ++ p ∷ [])
unfolding has_id
Apart-last [] done p a h = tt
Apart-last (q ∷ ps) done p (new, a) h = (
  has_id-last q p done ∙ ground (arith, new, h, bytes_eq_comm p q),
  Apart-last ps done p a (ground (arith, h)),
)

pub commit_files-IsUndoable :
    (writable : Text → Bool) (before staged : Disk) (paths : List Text) (c : Commit)
    → Distinct paths
    → Apart paths c.committed
    → IsUndoable before c
    → IsUndoable before (commit_files writable staged paths c).0
unfolding commit_files commit_file
commit_files-IsUndoable writable before staged [] c d a u = u
commit_files-IsUndoable writable before staged (path ∷ paths) c (new, d) (fresh, a) u =
    if-elim {A = Commit × Bool} (λ r. IsUndoable before r.0) (writable path)
      (commit_files-IsUndoable writable before staged paths (commit_file staged path c) d
        (Apart-last paths c.committed path a new)
        (commit_file-IsUndoable before staged path c fresh u))
      u

-- A path of the list cannot be restored.
abbrev pub HasStuck : (Text → Bool) → List Text → Type 0
HasStuck restorable paths = (p : Text) × (has_id p paths ≡ true) × (restorable p ≡ false)

-- What a path holds after the roll back: where all went through, the saved copy of a file committed, and
-- elsewhere what it held; where a path could not be restored, one of the two.
abbrev pub RolledBack : (Text → Bool) → Disk → List Text → Disk → Text → Disk × Bool → Type 0
RolledBack restorable saved paths disk q (disk', true) =
    disk' q ≡ (if has_id q paths then saved q else disk q)
RolledBack restorable saved paths disk q (disk', false) =
    ((disk' q ≡ disk q) ⊎ (disk' q ≡ (if has_id q paths then saved q else disk q)))
    × HasStuck restorable paths

kept_or_saved :
    (saved later disk : Disk) (q : Text) (paths : List Text)
    → has_id q paths ≡ true
    → (later q ≡ disk q) ⊎ (later q ≡ (if has_id q paths then saved q else disk q))
    → (later q ≡ disk q) ⊎ (later q ≡ saved q)
kept_or_saved saved later disk q paths there (inl e) = inl e
kept_or_saved saved later disk q paths there (inr e) = inr (e ∙ rw there refl)

pub unlisted :
    (saved later disk : Disk) (q : Text) (paths : List Text)
    → has_id q paths ≡ false
    → (later q ≡ disk q) ⊎ (later q ≡ (if has_id q paths then saved q else disk q))
    → later q ≡ disk q
unlisted saved later disk q paths missing (inl e) = e
unlisted saved later disk q paths missing (inr e) = e ∙ rw missing refl

RolledBack-cons :
    (restorable : Text → Bool) (saved : Disk) (path : Text) (paths : List Text) (disk : Disk)
    (q : Text) (r : Disk × Bool)
    → RolledBack restorable saved paths disk q r
    → RolledBack restorable saved
        (path ∷ paths)
        disk
        q
        (if r.1 && restorable path then (restore_file saved path r.0, true) else (r.0, false))
unfolding has_id restore_file put_file
RolledBack-cons restorable saved path paths disk q (later, true) h =
    elim (Bool-cases (restorable path)) [
      | inl good ↦ rw good (elim (Bool-cases (bytes_eq path q)) [
        | inl same ↦ rw same (ap saved (same_path path q same))
        | inr other ↦ rw other h
      ])
      | inr bad ↦ rw bad (
        elim (Bool-cases (bytes_eq path q)) [
          | inl same ↦ elim (Bool-cases (has_id q paths)) [
            | inl listed ↦ rw same (inr (h ∙ rw listed refl))
            | inr other ↦ inl (h ∙ rw other refl)
          ]
          | inr other ↦ rw other (inr h)
        ],
        (path, rw (bytes_eq_refl path) refl, bad),
      )
    ]
RolledBack-cons restorable saved path paths disk q (later, false) (h, (p, listed, bad)) = (
  elim (Bool-cases (bytes_eq path q)) [
    | inl same ↦ elim (Bool-cases (has_id q paths)) [
      | inl there ↦ rw same (kept_or_saved saved later disk q paths there h)
      | inr missing ↦ inl (unlisted saved later disk q paths missing h)
    ]
    | inr other ↦ rw other h
  ],
  (p, ground (arith, listed), bad),
)

pub roll_back-RolledBack :
    (restorable : Text → Bool) (saved : Disk) (paths : List Text) (disk : Disk) (q : Text)
    → RolledBack restorable saved paths disk q (roll_back restorable saved paths disk)
unfolding roll_back has_id
roll_back-RolledBack restorable saved [] disk q = refl
roll_back-RolledBack restorable saved (path ∷ paths) disk q =
    RolledBack-cons restorable saved path paths disk q (roll_back restorable saved paths disk)
      (roll_back-RolledBack restorable saved paths disk q)

-- Removing obsolete files leaves every path that the new wheel has, or that the old one did not have.
pub remove_obsolete-at :
    (removable : Text → Bool) (files previous : List Text) (disk : Disk) (q : Text)
    → (has_id q previous && not (has_id q files)) ≡ false
    → (remove_obsolete removable files previous disk).0 q ≡ disk q
unfolding remove_obsolete put_file has_id
remove_obsolete-at removable files [] disk q h = refl
remove_obsolete-at removable files (path ∷ previous) disk q h =
    let kept = remove_obsolete-at removable files previous disk q (ground (arith, h)) in
    elim (Bool-cases (has_id path files)) [
      | inl there ↦ rw there kept
      | inr gone ↦ elim (Option-cases (disk path)) [
        | inl none_there ↦ rw (gone, none_there) kept
        | inr (content, there) ↦
            let other : bytes_eq path q ≡ false = elim (Bool-cases (bytes_eq path q)) [
              | inr ne ↦ ne
              | inl same ↦
                  let e = ap (λ x. has_id x files) (same_path path q same) in
                  ground (arith, h, same, e, gone)
            ] in
            let removed =
              remove_obsolete-at removable files previous (put_file path none disk) q
                (ground (arith, h))
              ∙ rw other refl in
            rw (gone, there)
              (if-elim {A = Disk × Bool} (λ r. r.0 q ≡ disk q) (removable path) removed refl)
      ]
    ]

-- What undoing amounts to, at a path, when it goes through.
pub restored-IsUndoable :
    (before : Disk) (c : Commit) (q : Text)
    → IsUndoable before c
    → (if has_id q c.committed then c.saved q else c.disk q) ≡ before q
restored-IsUndoable before c q u = elim (Bool-cases (has_id q c.committed)) [
  | inl done ↦ rw done (u.backed_up q done)
  | inr left ↦ rw left (u.untouched q left)
]

-- Only paths of the wheel are committed.
pub committed-commit_files :
    (writable : Text → Bool) (staged : Disk) (q : Text) (paths : List Text) (c : Commit)
    → has_id q (commit_files writable staged paths c).0.committed ≡ true
    → (has_id q c.committed || has_id q paths) ≡ true
unfolding commit_files commit_file has_id
committed-commit_files writable staged q [] c h = ground (arith, h)
committed-commit_files writable staged q (path ∷ paths) c h =
    let K : Commit × Bool → Type 0 = λ r.
      has_id q r.0.committed ≡ true → (has_id q c.committed || has_id q (path ∷ paths)) ≡ true in
    if-elim K (writable path) {x = commit_files writable staged paths (commit_file staged path c)}
      {y = (c, false)}
      (λ there.
        let later =
          committed-commit_files writable staged q paths (commit_file staged path c) there in
        ground (arith, later, has_id-last q path c.committed))
      (λ there. ground (arith, there)) h
