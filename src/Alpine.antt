-- ===== src/Alpine.antt =====
-- The Alpine root file system of app/zmux/linuxenv.py: `install` and `uninstall`. A directory tree is the
-- table of its files, by their paths below its root.

pub mod Install
mod Tests
pub mod Guest
use zabawheels.Prelude.Dict.{lookup, insert}
use zabawheels.Prelude.Outcome.{Outcome, raised, returned, ◌>>=◌, ◌>>◌, require}
use zabawheels.Prelude.{
  ℕ, ◌+◌, Bool, true, false, ◌&&◌, ◌||◌, not, Option, none, some, List, [], ◌∷◌, ◌++◌, Bytes, Text,
  codes, bytes_eq, is_empty, leb, length, strip, if◌then◌else◌,
}
use zabawheels.Zpip.Wheel.{is_unsafe}

abbrev pub Tree : Type 0
Tree = List (Text × Text)

-- `MAX_ROOTFS_BYTES`
abbrev pub max_rootfs_bytes : ℕ
max_rootfs_bytes = 268435456

abbrev pub alpine_version : Text
alpine_version = codes "3.22.5"

-- `ALPINE_SHA512`
unfoldable pub alpine_sha512 : Text → Option Text
alpine_sha512 arch =
    if bytes_eq arch (codes "aarch64")
    then some (
        codes
          "40ee819e0bab9b92c44a1edd176a3ae1b5020078a50f158d66011ba7be3325653526dadb4bcb896f7c6544c7cbbfd6904f0287f93ae447b3754e59d7e5679b2e")
    else if bytes_eq arch (codes "armv7")
    then some (
        codes
          "7c27652b0d5c9cd028cc3c6bae05bee48d2be564ac41b4afc8cad221c167b33af8e46cda822ad0555eff01127dfe4f384f8267709466f6a748131a12664188e2")
    else if bytes_eq arch (codes "x86_64")
    then some (
        codes
          "daf0cedbcbe47f1108bea745a0722e42f0ec0f0c08dd1e8b255234a48f2e5d45d0c96b437bcf60be2ee7ced261870a736e4831bc55924f73b23756283ecfb29b")
    else none

-- What `response.read` brings: a piece of the body, which is empty at its end, or an exception, which
-- the writing of the piece may raise too.
pub data Chunk : Type 0 where
  piece : Bytes → Chunk
  broken : Text → Chunk

pub record TarMember : Type 0 where
  pub name : Text
  pub is_file : Bool
  pub size : ℕ

-- What `install` meets outside: the machine, the announced length of the response or the exception of
-- the request, its body, SHA-512, the reading of an archive and its unpacking, the host's resolv.conf
-- where it can be read, whether the files of `_bootstrap` can be written, what is in the staging
-- directory when one of these fails, and what `rmtree(…, ignore_errors=True)` leaves of a tree.
pub record World : Type 0 where
  pub arch : Text
  pub mirror : Text
  pub announced : Outcome ℕ
  pub body : List Chunk
  pub sha512 : Bytes → Text
  pub members : Bytes → Outcome (List TarMember)
  pub unpack : Bytes → Outcome Tree
  pub host_resolv : Option Text
  pub can_write : Bool
  pub partial : Tree
  pub rmtree : Tree → Option Tree

-- The live root, the staging directory and the downloaded archive.
pub record Disk : Type 0 where
  pub rootfs : Option Tree
  pub staging : Option Tree
  pub tarball : Option Bytes

abbrev pub is_present : Option Text → Bool
is_present none = false
is_present (some content) = true

-- `path.is_file()`
abbrev pub has_file : Text → Tree → Bool
has_file path tree = is_present (lookup path tree)

-- `is_installed`
unfoldable pub is_installed : Option Tree → Bool
is_installed none = false
is_installed (some tree) =
    has_file (codes "bin/busybox") tree && has_file (codes "etc/alpine-release") tree

-- `installed_version`
unfoldable pub installed_version : Option Tree → Text
installed_version none = []
installed_version (some tree) = elim (lookup (codes "etc/alpine-release") tree) [
  | none ↦ []
  | some content ↦ strip content
]

-- The loop of the download.
unfoldable pub read_chunks : List Chunk → Bytes → Outcome Bytes
read_chunks [] read = returned read
read_chunks (broken error ∷ chunks) read = raised error
read_chunks (piece [] ∷ chunks) read = returned read
read_chunks (piece (b ∷ bytes) ∷ chunks) read =
    let rest = read_chunks chunks (read ++ b ∷ bytes) in
    if leb (length (read ++ b ∷ bytes)) max_rootfs_bytes
    then rest
    else raised (codes "rootfs tarball exceeds safety limit")

-- The `try` around the download.
unfoldable pub download : World → Outcome Bytes
download w = do
  announced ← w.announced
  require (leb announced max_rootfs_bytes) (codes "rootfs tarball exceeds safety limit")
  read_chunks w.body []

-- The loop of `_safe_extract`, with the size of the files so far.
unfoldable pub scan_members : ℕ → List TarMember → Outcome (List TarMember)
scan_members total [] = returned []
scan_members total (m ∷ ms) = do
  require (not (is_unsafe m.name)) (codes "unsafe archive member: " ++ m.name)
  let size = if m.is_file then total + m.size else total
  require (leb size max_rootfs_bytes || not m.is_file)
      (codes "uncompressed rootfs exceeds safety limit")
  rest ← scan_members size ms
  returned (m ∷ rest)

-- `_safe_extract`
unfoldable pub safe_extract : World → Bytes → Outcome Tree
safe_extract w bytes = do members ← w.members bytes; safe ← scan_members 0 members; w.unpack bytes

-- The host's resolv.conf, unless it cannot be read or is blank.
unfoldable pub with_host_resolv : Option Text → Tree → Tree
with_host_resolv none tree = tree
with_host_resolv (some content) tree =
    if is_empty (strip content) then tree else insert (codes "etc/resolv.conf") content tree

-- The public resolvers, where there is no resolv.conf.
unfoldable pub with_resolv : Tree → Tree
with_resolv tree =
    if has_file (codes "etc/resolv.conf") tree
    then tree
    else insert (codes "etc/resolv.conf") (codes "nameserver 8.8.8.8\nnameserver 1.1.1.1\n") tree

-- The lines of the two repositories.
abbrev pub repositories : Text → Text
repositories mirror = mirror ++ codes "/v3.22/main\n" ++ (mirror ++ codes "/v3.22/community\n")

-- `_bootstrap`
unfoldable pub bootstrap : World → Tree → Outcome Tree
bootstrap w tree =
    let ready = with_resolv (
      with_host_resolv w.host_resolv
        (insert (codes "etc/apk/repositories") (repositories w.mirror) tree)) in
    if w.can_write
    then returned (
        if has_file (codes "etc/alpine-release") ready
        then ready
        else insert (codes "etc/alpine-release") (alpine_version ++ codes "\n") ready)
    else raised (codes "cannot write")

-- The tree that the staging directory holds before the swap.
abbrev pub prepare : World → Bytes → Outcome Tree
prepare w bytes = safe_extract w bytes >>= bootstrap w

-- `if path.exists(): rmtree(path, ignore_errors=True)`
unfoldable pub cleared : World → Option Tree → Option Tree
cleared w none = none
cleared w (some tree) = w.rmtree tree

-- Whether it was there already, and the version.
pub record Report : Type 0 where
  pub already : Bool
  pub version : Text

-- `os.replace`, which refuses a directory that is not empty.
unfoldable pub replace_root : Tree → Option Tree → Disk → Outcome Report × Disk
replace_root tree (some (file ∷ files)) d = (
  raised (codes "Directory not empty"),
  record d { rootfs = some (file ∷ files); staging = some tree },
)
replace_root tree _ d = (
  returned (record { already = false; version = installed_version (some tree) }),
  record d { rootfs = some tree; staging = none },
)

-- The `try` of `install`, with the prepared tree.
unfoldable pub swap : World → Outcome Tree → Disk → Outcome Report × Disk
swap w (raised error) d = (raised error, record d { staging = some w.partial })
swap w (returned tree) d = replace_root tree (cleared w d.rootfs) d

-- Its `finally`.
abbrev pub clean_up : World → Outcome Report × Disk → Outcome Report × Disk
clean_up w (answer, d) = (answer, record d { tarball = none; staging = cleared w d.staging })

-- The staging directory has to be gone before it is made.
unfoldable pub stage : World → Bytes → Option Tree → Disk → Outcome Report × Disk
stage w bytes none d = clean_up w (swap w (prepare w bytes) (record d { staging = some [] }))
stage w bytes (some left) d = (raised (codes "File exists"), record d { staging = some left })

-- `install` after the download.
unfoldable pub install_downloaded : World → Text → Outcome Bytes → Disk → Outcome Report × Disk
install_downloaded w expected (raised error) d =
    (raised (codes "download failed: " ++ error), record d { tarball = none })
install_downloaded w expected (returned bytes) d =
    if bytes_eq (w.sha512 bytes) expected
    then stage w bytes (cleared w d.staging) (record d { tarball = some bytes })
    else (raised (codes "SHA-512 mismatch for Alpine rootfs"), record d { tarball = none })

unfoldable pub install_pinned : World → Option Text → Disk → Outcome Report × Disk
install_pinned w none d = (raised (codes "No pinned Alpine rootfs for architecture"), d)
install_pinned w (some expected) d = install_downloaded w expected (download w) d

-- `install`
unfoldable pub install : World → Disk → Outcome Report × Disk
install w d =
    if is_installed d.rootfs
    then (returned (record { already = true; version = installed_version d.rootfs }), d)
    else install_pinned w (alpine_sha512 w.arch) d

-- `uninstall`
unfoldable pub uninstall : World → Disk → Disk
uninstall w d = record d { rootfs = cleared w d.rootfs }
