-- ===== src/Zpip/Disk/Committed.antt =====
-- What a commit that goes through leaves, and what the removal of obsolete files does.
use zabawheels.Prelude.{
  ◌≡◌, refl, sym, ap, ◌∙◌, ◌⊎◌, Bool, true, false, not, ◌&&◌, ◌||◌, Option, none, List, [], ◌∷◌,
  Bytes, Text, bytes_eq, bytes_eq_iff, if◌then◌else◌, if-elim, Bool-cases, Option-cases, inl, inr,
}
use zabawheels.Prelude.Dict.{has_id}
use zabawheels.Zpip.Disk.Rollback.{remove_obsolete-at}
use zabawheels.Zpip.Disk.Rounds.{round_removes, round_passes}
use zabawheels.Zpip.Disk.{Disk, put_file, Commit, commit_file, commit_files, remove_obsolete}

same_value :
    (staged disk : Disk) (path q : Text) (more : Bool)
    → (if more then staged q else (if bytes_eq path q then staged path else disk q))
      ≡ (if bytes_eq path q || more then staged q else disk q)
same_value staged disk path q more = elim (Bool-cases (bytes_eq path q)) [
  | inl same ↦
      rw (same, ap staged ((bytes_eq_iff path q).0 same))
        (if-elim {A = Option Bytes} (λ v. v ≡ staged q) more refl refl)
  | inr other ↦ rw other refl
]

-- A commit that goes through leaves the wheel's files, and all other files as they were.
pub commit_files-at :
    (writable : Text → Bool) (staged : Disk) (paths : List Text) (c : Commit) (q : Text)
    → ((commit_files writable staged paths c).1 ≡ false)
      ⊎ ((commit_files writable staged paths c).0.disk q
          ≡ (if has_id q paths then staged q else c.disk q))
unfolding commit_files commit_file put_file has_id
commit_files-at writable staged [] c q = inr refl
commit_files-at writable staged (path ∷ paths) c q =
    if-elim {A = Commit × Bool}
      (λ r. (r.1 ≡ false) ⊎ (r.0.disk q ≡ (if has_id q (path ∷ paths) then staged q else c.disk q)))
      (writable path)
      (elim (commit_files-at writable staged paths (commit_file staged path c) q) [
        | inl stopped ↦ inl stopped
        | inr through ↦ inr (through ∙ same_value staged c.disk path q (has_id q paths))
      ])
      (inl refl)

-- Whether a path is obsolete: the old package has it, and the wheel does not.
abbrev pub is_obsolete : List Text → List Text → Text → Bool
is_obsolete previous files q = has_id q previous && not (has_id q files)

same_path : (p q : Text) → bytes_eq p q ≡ true → p ≡ q
same_path p q = (bytes_eq_iff p q).0

-- A path holds what it held, or nothing.
remove_obsolete_either :
    (removable : Text → Bool) (files previous : List Text) (disk : Disk) (q : Text)
    → ((remove_obsolete removable files previous disk).0 q ≡ disk q)
      ⊎ ((remove_obsolete removable files previous disk).0 q ≡ none)
unfolding remove_obsolete put_file
remove_obsolete_either removable files [] disk q = inl refl
remove_obsolete_either removable files (path ∷ previous) disk q =
    let kept = remove_obsolete_either removable files previous disk q in
    elim (Bool-cases (has_id path files)) [
      | inl there ↦ rw there kept
      | inr gone ↦ elim (Option-cases (disk path)) [
        | inl absent ↦ rw (gone, absent) kept
        | inr (content, there) ↦
            rw (gone, there)
              (if-elim {A = Disk × Bool} (λ r. (r.0 q ≡ disk q) ⊎ (r.0 q ≡ none)) (removable path)
                (elim (remove_obsolete_either removable files previous (put_file path none disk)
                  q) [
                    | inr nothing ↦ inr nothing
                    | inl put ↦ elim (Bool-cases (bytes_eq path q)) [
                      | inl same ↦ inr (put ∙ rw same refl)
                      | inr other ↦ inl (put ∙ rw other refl)
                    ]
                  ])
                (inl refl))
      ]
    ]

-- The removal of obsolete files touches no other, wherever it stops.
pub remove_obsolete-some :
    (removable : Text → Bool) (files previous : List Text) (disk : Disk) (q : Text)
    → ((remove_obsolete removable files previous disk).0 q ≡ disk q)
      ⊎ ((is_obsolete previous files q ≡ true)
          × ((remove_obsolete removable files previous disk).0 q ≡ none))
remove_obsolete-some removable files previous disk q =
    elim (Bool-cases (is_obsolete previous files q)) [
      | inr needed ↦ inl (remove_obsolete-at removable files previous disk q needed)
      | inl obsolete ↦ elim (remove_obsolete_either removable files previous disk q) [
        | inl same ↦ inl same
        | inr nothing ↦ inr (obsolete, nothing)
      ]
    ]

-- When it goes through, no obsolete file is left.
pub remove_obsolete-all :
    (removable : Text → Bool) (files previous : List Text) (disk : Disk) (q : Text)
    → ((remove_obsolete removable files previous disk).1 ≡ false)
      ⊎ ((remove_obsolete removable files previous disk).0 q
          ≡ (if is_obsolete previous files q then none else disk q))
unfolding remove_obsolete put_file has_id
remove_obsolete-all removable files [] disk q = inr refl
remove_obsolete-all removable files (path ∷ previous) disk q =
    let unneeded = not (has_id q files) in
    let more = has_id q previous in
    elim (Bool-cases (has_id path files)) [
      | inl there ↦
          let pass = round_passes (bytes_eq path q) more unneeded none (disk q) (λ same.
            inl (ap (λ x. not (has_id x files)) (sym (same_path path q same)) ∙ rw there refl)) in
          rw there (elim (remove_obsolete-all removable files previous disk q) [
            | inl stopped ↦ inl stopped
            | inr e ↦ inr (e ∙ pass)
          ])
      | inr gone ↦ elim (Option-cases (disk path)) [
        | inl absent ↦
            let pass =
              round_passes (bytes_eq path q) more unneeded none (disk q)
                (λ same. inr (ap disk (sym (same_path path q same)) ∙ absent)) in
            rw (gone, absent)
              (elim (remove_obsolete-all removable files previous disk q) [
                | inl stopped ↦ inl stopped
                | inr e ↦ inr (e ∙ pass)
              ])
        | inr (content, there) ↦
            let removes = round_removes (bytes_eq path q) more unneeded none (disk q) (λ same.
              ap (λ x. not (has_id x files)) (sym (same_path path q same)) ∙ rw gone refl) in
            rw (gone, there)
              (if-elim {A = Disk × Bool}
                (λ r.
                  (r.1 ≡ false)
                  ⊎ (r.0 q ≡ (if is_obsolete (path ∷ previous) files q then none else disk q)))
                (removable path)
                (elim (remove_obsolete-all removable files previous (put_file path none disk) q) [
                  | inl stopped ↦ inl stopped
                  | inr e ↦ inr (e ∙ removes)
                ])
                (inl refl))
      ]
    ]
