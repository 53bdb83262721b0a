-- ===== src/Alpine/Guest/Shell.antt =====
-- What the user's shell sees of the device, from the command line that app/zmux/linuxenv.py builds.
use zabawheels.Prelude.{
  ◌≡◌, refl, sym, ap, subst, ◌∙◌, ◌⊎◌, inl, inr, Bool, true, false, not, ◌&&◌, ◌||◌, some, List, [],
  ◌∷◌, ◌++◌, map, concat, append_assoc, arith, Text, Absent, codes, bytes_eq, bytes_eq_iff,
  bytes_eq_refl, is_empty, ◌==◌, ==_iff, if◌then◌else◌, if-elim_eq, Bool-cases, Option-cases,
}
use zabawheels.Prelude.Dict.{has_id, has_id-append, Distinct, Distinct-append}
use zabawheels.Alpine.Guest.{
  Device, relative_to, slashed, guest_cwd, storage_paths, storage_bind_paths, onto_itself,
  build_interactive_argv,
}
use zabawheels.Alpine.Guest.Argv.{
  Options, read_options, no_options, resolv_binds, shell_binds, login_shell,
  read_options-build_interactive_argv,
}

-- A bind as PRoot reads it: the host's path up to the first colon, and the guest's behind it, or one path
-- for both.
unfoldable pub cut_at_colon : Text → Text × Text
cut_at_colon [] = ([], [])
cut_at_colon (c ∷ text) =
    let (host, guest) = cut_at_colon text in if c == b':' then ([], text) else (c ∷ host, guest)

abbrev pub has_colon : Text → Bool
has_colon [] = false
has_colon (c ∷ text) = (c == b':') || has_colon text

unfoldable pub read_bind : Text → Text × Text
read_bind text = if has_colon text then cut_at_colon text else (text, text)

-- The directory where the shell starts: below the user's home the same place under /root, and else /.
abbrev pub IsGuestCwd : List Text → List Text → Text → Type 0
IsGuestCwd home host guest =
    ((ps : List Text) × (host ≡ home ++ ps)
      × (guest ≡ codes "/root" ++ concat (map (λ p. codes "/" ++ p) ps)))
    ⊎ ((¬ ((ps : List Text) × (host ≡ home ++ ps))) × (guest ≡ codes "/"))

abbrev pub storage_candidates : Device → List Text
storage_candidates d =
    d.app_path
    ∷ d.external_storage
    ∷ d.android_storage
    ∷ codes "/sdcard"
    ∷ codes "/storage/emulated/0"
    ∷ []

-- The storage that is bound: each candidate that is a directory, once.
pub record IsStorage (d : Device) (storage : List Text) : Type 0 where
  pub once : Distinct storage
  pub complete :
      (path : Text)
      → has_id path storage
        ≡ (has_id path (storage_candidates d) && (not (is_empty path) && d.is_dir path))

abbrev both : Text → Text × Text
both path = (path, path)

abbrev resolv_bind : Bool → List (Text × Text)
resolv_bind true = both (codes "/etc/resolv.conf") ∷ []
resolv_bind false = []

relative_to-append : (home ps : List Text) → relative_to home (home ++ ps) ≡ some ps
unfolding relative_to
relative_to-append [] ps = refl
relative_to-append (h ∷ home) ps = rw (bytes_eq_refl h, relative_to-append home ps) refl

relative_to-some : (home host ps : List Text) → relative_to home host ≡ some ps → host ≡ home ++ ps
unfolding relative_to
relative_to-some [] host ps e = cc e
relative_to-some (h ∷ home) [] ps e = cc e
relative_to-some (h ∷ home) (p ∷ host) ps e = elim (Bool-cases (bytes_eq h p)) [
  | inl same ↦
      let later : relative_to home host ≡ some ps = ground (arith, e, same) in
      let first : h ≡ p = (bytes_eq_iff h p).0 same in
      cc (relative_to-some home host ps later, first)
  | inr other ↦ ground (arith, e, other)
]

slashed-concat : (ps : List Text) → slashed ps ≡ concat (map (λ p. codes "/" ++ p) ps)
slashed-concat [] = refl
slashed-concat (p ∷ ps) = ap (λ t. codes "/" ++ (p ++ t)) (slashed-concat ps)

guest_cwd-IsGuestCwd : (home host : List Text) → IsGuestCwd home host (guest_cwd home host)
unfolding guest_cwd
guest_cwd-IsGuestCwd home host = elim (Option-cases (relative_to home host)) [
  | inl outside ↦ rw outside (
      inr (
        (λ (ps, e). cc (sym outside ∙ ap (relative_to home) e ∙ relative_to-append home ps)),
        refl,
      ))
  | inr (ps, inside) ↦ rw inside (
      inl (
        ps,
        relative_to-some home host ps inside,
        ap (λ t. codes "/root" ++ t) (slashed-concat ps),
      ))
]

-- A path without a colon is read back.
has_colon-append : (path rest : Text) → has_colon (path ++ b':' ∷ rest) ≡ true
has_colon-append [] rest = refl
has_colon-append (c ∷ path) rest = ground (arith, has_colon-append path rest)

cut_at_colon-append :
    (path rest : Text) → Absent b':' path → cut_at_colon (path ++ b':' ∷ rest) ≡ (path, rest)
unfolding cut_at_colon
cut_at_colon-append [] rest h = refl
cut_at_colon-append (c ∷ path) rest (other, h) =
    let plain : (c == b':') ≡ false = ground (arith, other, ==_iff c b':') in
    rw (plain, cut_at_colon-append path rest h) refl

read_bind-append :
    (path rest : Text) → Absent b':' path → read_bind (path ++ b':' ∷ rest) ≡ (path, rest)
unfolding read_bind
read_bind-append path rest h = rw (has_colon-append path rest) (cut_at_colon-append path rest h)

abbrev pub AllAbsent : List Text → Type 0
AllAbsent [] = Unit
AllAbsent (path ∷ paths) = Absent b':' path × AllAbsent paths

AllAbsent-has_id :
    (path : Text) (paths : List Text)
    → AllAbsent paths
    → has_id path paths ≡ true
    → Absent b':' path
unfolding has_id
AllAbsent-has_id path [] all e = cc e
AllAbsent-has_id path (p ∷ paths) (first, all) e = elim (Bool-cases (bytes_eq p path)) [
  | inl same ↦ subst (Absent b':') ((bytes_eq_iff p path).0 same) first
  | inr other ↦ AllAbsent-has_id path paths all (ground (arith, e, other))
]

map-read_bind :
    (paths : List Text)
    → ((path : Text) → has_id path paths ≡ true → Absent b':' path)
    → map read_bind (map onto_itself paths) ≡ map both paths
unfolding has_id
map-read_bind [] h = refl
map-read_bind (p ∷ paths) h =
    let first : read_bind (onto_itself p) ≡ both p =
      ap read_bind (append_assoc p (codes ":") p)
      ∙ read_bind-append p p (h p (rw (bytes_eq_refl p) refl)) in
    let later = map-read_bind paths (λ q there. h q (ground (arith, there))) in
    ap (λ bind. bind ∷ map read_bind (map onto_itself paths)) first ∙ ap (◌∷◌ (both p)) later

same_candidate :
    (is_dir : Text → Bool) (paths : List Text) (c path : Text) (candidates : List Text)
    → c ≡ path
    → (has_id path (
          if not (is_empty c) && (is_dir c && not (has_id c paths)) then paths ++ c ∷ [] else paths)
        || (has_id path candidates && (not (is_empty path) && is_dir path)))
      ≡ (has_id path paths
          || ((bytes_eq c path || has_id path candidates) && (not (is_empty path) && is_dir path)))
unfolding has_id
same_candidate is_dir paths c path candidates e =
    let K : Text → Type 0 = λ q.
      (has_id q (
          if not (is_empty c) && (is_dir c && not (has_id c paths)) then paths ++ c ∷ [] else paths)
        || (has_id q candidates && (not (is_empty q) && is_dir q)))
      ≡ (has_id q paths
          || ((bytes_eq c q || has_id q candidates) && (not (is_empty q) && is_dir q))) in
    let member : has_id c (paths ++ c ∷ []) ≡ true =
      has_id-append c paths (c ∷ []) ∙ ground (arith, bytes_eq_refl c) in
    let missing : bytes_eq c c ≡ true = bytes_eq_refl c in
    subst K e (
      if-elim_eq {A = List Text}
        (λ u. (has_id c u || (has_id c candidates && (not (is_empty c) && is_dir c))) ≡ (
          has_id c paths
          || ((bytes_eq c c || has_id c candidates) && (not (is_empty c) && is_dir c))))
        (not (is_empty c) && (is_dir c && not (has_id c paths)))
        (λ yes. ground (arith, member, missing, yes)) (λ no. ground (arith, missing, no)))

storage_paths_complete :
    (is_dir : Text → Bool) (paths candidates : List Text) (path : Text)
    → has_id path (storage_paths is_dir paths candidates)
      ≡ (has_id path paths || (has_id path candidates && (not (is_empty path) && is_dir path)))
unfolding storage_paths has_id
storage_paths_complete is_dir paths [] path = ground arith
storage_paths_complete is_dir paths (c ∷ candidates) path =
    let test = not (is_empty c) && (is_dir c && not (has_id c paths)) in
    storage_paths_complete is_dir (if test then paths ++ c ∷ [] else paths) candidates path
    ∙ elim (Bool-cases (bytes_eq c path)) [
      | inl same ↦ same_candidate is_dir paths c path candidates ((bytes_eq_iff c path).0 same)
      | inr other ↦
          if-elim_eq {A = List Text}
            (λ u.
              (has_id path u || (has_id path candidates && (not (is_empty path) && is_dir path)))
              ≡ (has_id path paths
                  || ((bytes_eq c path || has_id path candidates)
                      && (not (is_empty path) && is_dir path))))
            test (λ yes. ground (arith, has_id-append path paths (c ∷ []), other))
            (λ no. ground (arith, other))
    ]

storage_paths-Distinct :
    (is_dir : Text → Bool) (paths candidates : List Text)
    → Distinct paths
    → Distinct (storage_paths is_dir paths candidates)
unfolding storage_paths
storage_paths-Distinct is_dir paths [] d = d
storage_paths-Distinct is_dir paths (c ∷ candidates) d =
    let test = not (is_empty c) && (is_dir c && not (has_id c paths)) in
    storage_paths-Distinct is_dir (if test then paths ++ c ∷ [] else paths) candidates (
      if-elim_eq {A = List Text} Distinct test
        (λ new. Distinct-append paths c d (ground (arith, new))) (λ old. d))

storage_bind_paths-IsStorage : (d : Device) → IsStorage d (storage_bind_paths d)
unfolding storage_bind_paths has_id
storage_bind_paths-IsStorage d = record {
  once = storage_paths-Distinct d.is_dir [] (storage_candidates d) tt;
  complete = λ path. storage_paths_complete d.is_dir [] (storage_candidates d) path;
}

map-append : (xs ys : List Text) → map read_bind (xs ++ ys) ≡ map read_bind xs ++ map read_bind ys
map-append [] ys = refl
map-append (x ∷ xs) ys = ap (◌∷◌ (read_bind x)) (map-append xs ys)

map-resolv_binds :
    (has_resolv : Bool) → map read_bind (resolv_binds has_resolv) ≡ resolv_bind has_resolv
unfolding read_bind cut_at_colon
map-resolv_binds true = refl
map-resolv_binds false = refl

-- No path of the device has a colon.
abbrev pub NoColons : Device → Type 0
NoColons d = AllAbsent (d.home_dir ∷ d.app_path ∷ d.external_storage ∷ d.android_storage ∷ [])

candidates-AllAbsent : (d : Device) → NoColons d → AllAbsent (storage_candidates d)
candidates-AllAbsent d (home, (app, (external, (android, end)))) =
    (app, (external, (android, (omega arith, (omega arith, tt)))))

map-shell_binds :
    (d : Device)
    → NoColons d
    → map read_bind (shell_binds d)
      ≡ both (codes "/dev")
        ∷ both (codes "/proc")
        ∷ both (codes "/sys")
        ∷ (d.home_dir, codes "/root")
        ∷ (map both (storage_bind_paths d) ++ resolv_bind d.has_resolv)
unfolding read_bind
map-shell_binds d plain =
    let storage = storage_bind_paths d in
    let is_storage = storage_bind_paths-IsStorage d in
    let listed = λ (path : Text) (there : has_id path storage ≡ true).
      AllAbsent-has_id path (storage_candidates d) (candidates-AllAbsent d plain)
        (ground (arith, there, is_storage.complete path)) in
    let home : read_bind (d.home_dir ++ codes ":/root") ≡ (d.home_dir, codes "/root") =
      read_bind-append d.home_dir (codes "/root") plain.0 in
    ap
      (λ bind.
        both (codes "/dev")
        ∷ both (codes "/proc")
        ∷ both (codes "/sys")
        ∷ bind
        ∷ map read_bind (map onto_itself storage ++ resolv_binds d.has_resolv))
      home
    ∙ ap
        (λ binds.
          both (codes "/dev")
          ∷ both (codes "/proc")
          ∷ both (codes "/sys")
          ∷ (d.home_dir, codes "/root")
          ∷ binds)
        (map-append (map onto_itself storage) (resolv_binds d.has_resolv)
          ∙ ap (λ binds. binds ++ map read_bind (resolv_binds d.has_resolv))
              (map-read_bind storage listed)
          ∙ ap (λ binds. map both storage ++ binds) (map-resolv_binds d.has_resolv))

-- What the shell is given: the root, where it starts, its switches, and its binds.
pub record IsShell (d : Device) (host_cwd : List Text) (o : Options) : Type 0 where
  pub root : o.root ≡ d.rootfs
  pub starts : IsGuestCwd d.home_parts host_cwd o.cwd
  pub switched :
      o.switches
      ≡ codes "--kill-on-exit" ∷ codes "--link2symlink" ∷ codes "--sysvipc" ∷ codes "-0" ∷ []
  pub storage : List Text
  pub is_storage : IsStorage d storage
  pub bound :
      map read_bind o.binds
      ≡ both (codes "/dev")
        ∷ both (codes "/proc")
        ∷ both (codes "/sys")
        ∷ (d.home_dir, codes "/root")
        ∷ (map both storage ++ resolv_bind d.has_resolv)

-- The shell's command line, read as PRoot reads it where no path of the device has a colon, runs the login
-- shell in the installed root with the four switches; it starts below /root where the directory on the
-- device is below the user's home, at the same place, and else in /; and it sees the kernel's directories,
-- the user's home as /root, each directory among the candidates for storage, once and under its own
-- path, resolv.conf where there is one, and nothing else.
pub build_interactive_argv-IsShell :
    (d : Device) (host_cwd : List Text) (proot : Text)
    → d.proot ≡ some proot
    → NoColons d
    → (args : List Text) × (build_interactive_argv d host_cwd ≡ some (proot ∷ args))
      × (o : Options) × (read_options args no_options ≡ some (o, login_shell))
      × IsShell d host_cwd o
build_interactive_argv-IsShell d host_cwd proot there plain =
    let (args, built, read) = read_options-build_interactive_argv d host_cwd proot there in
    (
      args,
      built,
      _,
      read,
      record {
        root = refl;
        starts = guest_cwd-IsGuestCwd d.home_parts host_cwd;
        switched = refl;
        storage = storage_bind_paths d;
        is_storage = storage_bind_paths-IsStorage d;
        bound = map-shell_binds d plain;
      },
    )
