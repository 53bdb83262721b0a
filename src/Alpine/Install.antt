-- ===== src/Alpine/Install.antt =====
-- What an installation of app/zmux/linuxenv.py leaves, however it ends.
use zabawheels.Prelude.Dict.{has_id, lookup, insert, lookup-insert}
use zabawheels.Prelude.Outcome.{
  Outcome, raised, returned, ◌>>=◌, Holds, Holds-bind, Holds-require, Outcome-cases, Holds-returned,
}
use zabawheels.Prelude.{
  ℕ, ◌+◌, ◌≤◌, ◌≡◌, ◌⊎◌, refl, sym, ap, ◌∙◌, true, false, ◌||◌, not, Option, none, some, List, [],
  ◌∷◌, ◌++◌, arith, Bytes, Text, codes, bytes_eq, bytes_eq_iff, bytes_eq_refl, leb, leb→le, length,
  if◌then◌else◌, if-elim, if-elim_eq, Bool-cases, inl, inr, is_empty, strip,
}
use zabawheels.Zpip.Wheel.{is_unsafe}
use zabawheels.Alpine.{
  Tree, max_rootfs_bytes, alpine_version, alpine_sha512, Chunk, piece, broken, TarMember, World,
  Disk, has_file, is_present, is_installed, read_chunks, download, scan_members, safe_extract,
  with_host_resolv, with_resolv, repositories, bootstrap, prepare, cleared, Report, replace_root,
  swap, clean_up, stage, install_downloaded, install_pinned, install,
}

-- What is downloaded has at most the size that is allowed.
read_chunks-bounded :
    (chunks : List Chunk) (read : Bytes)
    → length read ≤ max_rootfs_bytes
    → Holds (λ bytes. length bytes ≤ max_rootfs_bytes) (read_chunks chunks read)
unfolding read_chunks
read_chunks-bounded [] read h = h
read_chunks-bounded (broken error ∷ chunks) read h = tt
read_chunks-bounded (piece [] ∷ chunks) read h = h
read_chunks-bounded (piece (b ∷ bytes) ∷ chunks) read h =
    if-elim_eq (Holds (λ bytes. length bytes ≤ max_rootfs_bytes))
      (leb (length (read ++ b ∷ bytes)) max_rootfs_bytes)
      (λ small.
        read_chunks-bounded chunks (read ++ b ∷ bytes)
          (leb→le (length (read ++ b ∷ bytes)) max_rootfs_bytes small))
      (λ large. tt)

anything : {A : Type 0} (o : Outcome A) → Holds (λ a. Unit {0}) o
anything (raised error) = tt
anything (returned a) = tt

download-bounded : (w : World) → Holds (λ bytes. length bytes ≤ max_rootfs_bytes) (download w)
unfolding download
download-bounded w =
    Holds-bind (λ n. Unit {0}) (λ bytes. length bytes ≤ max_rootfs_bytes) w.announced _
      (anything w.announced)
      (λ announced answered.
        Holds-require (λ bytes. length bytes ≤ max_rootfs_bytes) (leb announced max_rootfs_bytes)
          (codes "rootfs tarball exceeds safety limit") (read_chunks w.body [])
          (λ small. read_chunks-bounded w.body [] (omega arith)))

-- The names and the sizes that `_safe_extract` lets pass.
abbrev pub AreSafe : ℕ → List TarMember → Type 0
AreSafe total [] = Unit
AreSafe total (m ∷ ms) =
    (is_unsafe m.name ≡ false)
    × ((if m.is_file then total + m.size else total) ≤ max_rootfs_bytes)
    × AreSafe (if m.is_file then total + m.size else total) ms

size_bounded :
    (total : ℕ) (m : TarMember)
    → total ≤ max_rootfs_bytes
    → (leb (if m.is_file then total + m.size else total) max_rootfs_bytes || not m.is_file) ≡ true
    → (if m.is_file then total + m.size else total) ≤ max_rootfs_bytes
size_bounded total m h small = elim (Bool-cases m.is_file) [
  | inl file ↦
      let fits : leb (total + m.size) max_rootfs_bytes ≡ true = ground (arith, small, file) in
      rw file (leb→le (total + m.size) max_rootfs_bytes fits)
  | inr other ↦ rw other h
]

scan_members-AreSafe :
    (total : ℕ) (ms : List TarMember)
    → total ≤ max_rootfs_bytes
    → Holds (λ safe. AreSafe total ms) (scan_members total ms)
unfolding scan_members
scan_members-AreSafe total [] h = tt
scan_members-AreSafe total (m ∷ ms) h =
    let size = if m.is_file then total + m.size else total in
    Holds-require _ (not (is_unsafe m.name)) _ _ (λ safe.
      Holds-require _ (leb size max_rootfs_bytes || not m.is_file) _ _ (λ small.
        let bounded = size_bounded total m h small in
        Holds-bind (λ rest. AreSafe size ms) (λ all. AreSafe total (m ∷ ms)) (scan_members size ms)
          _ (scan_members-AreSafe size ms bounded)
          (λ rest later. (ground (arith, safe), bounded, later))))

abbrev pub release : Text
release = codes "etc/alpine-release"

has_file-insert :
    (path content : Text) (tree : Tree) → has_file path (insert path content tree) ≡ true
has_file-insert path content tree = ap is_present (
    lookup-insert path path content tree
    ∙ ap (λ b. if b then some content else lookup path tree) (bytes_eq_refl path))

-- The release file is there after `_bootstrap`.
bootstrap-release :
    (w : World) (tree : Tree)
    → Holds (λ ready. has_file (codes "etc/alpine-release") ready ≡ true) (bootstrap w tree)
unfolding bootstrap
bootstrap-release w tree =
    if-elim (Holds (λ ready. has_file release ready ≡ true)) w.can_write
      (if-elim_eq (λ ready. has_file release ready ≡ true) _ (λ there. there)
        (λ missing. has_file-insert release (alpine_version ++ codes "\n") _))
      tt

-- The files that `_bootstrap` may write.
abbrev pub first_run_files : List Text
first_run_files =
    codes "etc/apk/repositories" ∷ codes "etc/resolv.conf" ∷ codes "etc/alpine-release" ∷ []

-- Other files stay as they were unpacked.
insert_keeps :
    (path name content : Text) (tree : Tree)
    → bytes_eq name path ≡ false
    → lookup path (insert name content tree) ≡ lookup path tree
insert_keeps path name content tree other =
    lookup-insert name path content tree
    ∙ ap (λ b. if b then some content else lookup path tree) other

with_host_resolv_keeps :
    (path : Text) (o : Option Text) (tree : Tree)
    → bytes_eq (codes "etc/resolv.conf") path ≡ false
    → lookup path (with_host_resolv o tree) ≡ lookup path tree
unfolding with_host_resolv
with_host_resolv_keeps path none tree other = refl
with_host_resolv_keeps path (some content) tree other =
    if-elim {A = Tree} (λ t. lookup path t ≡ lookup path tree) (is_empty (strip content)) refl
      (insert_keeps path (codes "etc/resolv.conf") content tree other)

with_resolv_keeps :
    (path : Text) (tree : Tree)
    → bytes_eq (codes "etc/resolv.conf") path ≡ false
    → lookup path (with_resolv tree) ≡ lookup path tree
unfolding with_resolv
with_resolv_keeps path tree other =
    if-elim {A = Tree} (λ t. lookup path t ≡ lookup path tree)
      (has_file (codes "etc/resolv.conf") tree) refl (insert_keeps path _ _ tree other)

bootstrap_keeps :
    (w : World) (tree : Tree) (path : Text)
    → has_id path first_run_files ≡ false
    → Holds (λ ready. lookup path ready ≡ lookup path tree) (bootstrap w tree)
unfolding bootstrap has_id
bootstrap_keeps w tree path other =
    let listed = insert (codes "etc/apk/repositories") (repositories w.mirror) tree in
    let hosted = with_host_resolv w.host_resolv listed in
    let not_resolv : bytes_eq (codes "etc/resolv.conf") path ≡ false = ground (arith, other) in
    let not_listed : bytes_eq (codes "etc/apk/repositories") path ≡ false = ground (arith, other) in
    let not_release : bytes_eq release path ≡ false = ground (arith, other) in
    let kept : lookup path (with_resolv hosted) ≡ lookup path tree =
      with_resolv_keeps path hosted not_resolv
      ∙ with_host_resolv_keeps path w.host_resolv listed not_resolv
      ∙ insert_keeps path _ _ tree not_listed in
    if-elim {A = Outcome Tree} (Holds (λ ready. lookup path ready ≡ lookup path tree)) w.can_write
      (if-elim {A = Tree} (λ ready. lookup path ready ≡ lookup path tree)
        (has_file release (with_resolv hosted)) kept
        (insert_keeps path release _ (with_resolv hosted) not_release ∙ kept))
      tt

-- What an installation was made of: bytes that the download brought, with the pinned digest and within
-- the limit, whose members are within the limit too and stay below the root, and the files that they
-- unpack to, but for those of the first run.
pub record IsVerified (w : World) (expected : Text) (tree : Tree) : Type 0 where
  pub bytes : Bytes
  pub downloaded : download w ≡ returned bytes
  pub unpacked : Tree
  pub unpacks : w.unpack bytes ≡ returned unpacked
  pub kept :
      (path : Text) → has_id path first_run_files ≡ false → lookup path tree ≡ lookup path unpacked
  pub digest : w.sha512 bytes ≡ expected
  pub bounded : length bytes ≤ max_rootfs_bytes
  pub members : List TarMember
  pub listed : w.members bytes ≡ returned members
  pub safe : AreSafe 0 members
  pub released : has_file release tree ≡ true

-- How an installation may end on a disk where Alpine is not installed: with the old root, with what
-- `rmtree` left of it, or with a verified one and no archive left over.
abbrev pub Ends : World → Text → Disk → Outcome Report × Disk → Type 0
Ends w expected d (raised error, d') = (d'.rootfs ≡ d.rootfs) ⊎ (d'.rootfs ≡ cleared w d.rootfs)
Ends w expected d (returned report, d') =
    (report.already ≡ false)
    × (d'.tarball ≡ none)
    × (tree : Tree) × (d'.rootfs ≡ some tree)
    × IsVerified w expected tree

replace_root-Ends :
    (w : World) (expected : Text) (tree : Tree) (left : Option Tree) (d d' : Disk)
    → IsVerified w expected tree
    → cleared w d.rootfs ≡ left
    → Ends w expected d (clean_up w (replace_root tree left d'))
unfolding replace_root
replace_root-Ends w expected tree none d d' v e = (refl, refl, tree, refl, v)
replace_root-Ends w expected tree (some []) d d' v e = (refl, refl, tree, refl, v)
replace_root-Ends w expected tree (some (file ∷ files)) d d' v e = inr (sym e)

-- The first-run files of a tree that was unpacked.
made :
    (w : World) (expected : Text) (bytes : Bytes) (o : Outcome Tree)
    → w.unpack bytes ≡ o
    → download w ≡ returned bytes
    → w.sha512 bytes ≡ expected
    → length bytes ≤ max_rootfs_bytes
    → (ms : List TarMember) → w.members bytes ≡ returned ms
    → AreSafe 0 ms
    → Holds (IsVerified w expected) (o >>= bootstrap w)
made w expected bytes (raised error) e brought digest bounded ms listed safe = tt
made w expected bytes (returned tree) e brought digest bounded ms listed safe =
    elim (Outcome-cases (bootstrap w tree)) [
      | inl (error, stopped) ↦ rw stopped tt
      | inr (ready, passed) ↦ rw passed (record {
        bytes = bytes;
        downloaded = brought;
        unpacked = tree;
        unpacks = e;
        kept = λ path other.
            Holds-returned (λ t. lookup path t ≡ lookup path tree) passed
              (bootstrap_keeps w tree path other);
        digest = digest;
        bounded = bounded;
        members = ms;
        listed = listed;
        safe = safe;
        released =
            Holds-returned (λ t. has_file release t ≡ true) passed (bootstrap-release w tree);
      })
    ]

-- What `prepare` brings, where it brings anything, once the members are listed.
prepared-IsVerified :
    (w : World) (expected : Text) (bytes : Bytes) (o : Outcome (List TarMember))
    → download w ≡ returned bytes
    → w.sha512 bytes ≡ expected
    → length bytes ≤ max_rootfs_bytes
    → w.members bytes ≡ o
    → Holds
        (IsVerified w expected)
        ((o >>= λ ms. scan_members 0 ms >>= λ safe. w.unpack bytes) >>= bootstrap w)
prepared-IsVerified w expected bytes (raised error) brought digest bounded e = tt
prepared-IsVerified w expected bytes (returned ms) brought digest bounded e =
    elim (Outcome-cases (scan_members 0 ms)) [
      | inl (error, stopped) ↦ rw stopped tt
      | inr (all, passed) ↦
          let safe : AreSafe 0 ms =
            Holds-returned (λ safe. AreSafe 0 ms) passed
              (scan_members-AreSafe 0 ms (omega arith)) in
          rw passed (made w expected bytes (w.unpack bytes) refl brought digest bounded ms e safe)
    ]

swap-Ends :
    (w : World) (expected : Text) (o : Outcome Tree) (d d' : Disk)
    → Holds (IsVerified w expected) o
    → d'.rootfs ≡ d.rootfs
    → Ends w expected d (clean_up w (swap w o d'))
unfolding swap
swap-Ends w expected (raised error) d d' v e = inl e
swap-Ends w expected (returned tree) d d' v e =
    replace_root-Ends w expected tree (cleared w d'.rootfs) d d' v (ap (cleared w) (sym e))

stage-Ends :
    (w : World) (expected : Text) (bytes : Bytes) (left : Option Tree) (d d' : Disk)
    → download w ≡ returned bytes
    → w.sha512 bytes ≡ expected
    → length bytes ≤ max_rootfs_bytes
    → d'.rootfs ≡ d.rootfs
    → Ends w expected d (stage w bytes left d')
unfolding stage safe_extract
stage-Ends w expected bytes none d d' brought digest bounded e =
    swap-Ends w expected (prepare w bytes) d (record d' { staging = some [] })
      (prepared-IsVerified w expected bytes (w.members bytes) brought digest bounded refl) e
stage-Ends w expected bytes (some left) d d' brought digest bounded e = inl e

downloaded-Ends :
    (w : World) (expected : Text) (o : Outcome Bytes) (d : Disk)
    → download w ≡ o
    → Holds (λ bytes. length bytes ≤ max_rootfs_bytes) o
    → Ends w expected d (install_downloaded w expected o d)
unfolding install_downloaded
downloaded-Ends w expected (raised error) d brought bounded = inl refl
downloaded-Ends w expected (returned bytes) d brought bounded =
    if-elim_eq (Ends w expected d) (bytes_eq (w.sha512 bytes) expected)
      (λ same.
        stage-Ends w expected bytes (cleared w d.staging) d (record d { tarball = some bytes })
          brought ((bytes_eq_iff (w.sha512 bytes) expected).0 same) bounded refl)
      (λ other. inl refl)

-- Where Alpine is installed, `install` changes nothing. Where it is not, and the machine has a pinned
-- digest, it ends with an exception and the old root, or what the removal of that root left of it, or it
-- answers, and then the download has brought bytes with that digest and within the size limit, whose
-- members all lie below the root and are within the limit together; each file of the root, but for
-- resolv.conf, the list of repositories and the release file, is the one that those bytes unpack to; the
-- release file is there, and the archive is gone.
pub install-Ends :
    (w : World) (d : Disk) (expected : Text)
    → alpine_sha512 w.arch ≡ some expected
    → (is_installed d.rootfs ≡ true → (install w d).1 ≡ d)
      × (is_installed d.rootfs ≡ false → Ends w expected d (install w d))
unfolding install
install-Ends w d expected pinned = (
  λ there. rw there refl,
  λ missing.
      rw (missing, pinned)
        (unfold install_pinned in
          downloaded-Ends w expected (download w) d refl (download-bounded w)),
)
