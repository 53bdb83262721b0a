-- ===== src/Zpip/Wheel.antt =====
-- Wheels: `_download`, `_safe_members` and `_extract` (app/zmux/zpip.py).
pub mod Safe
use zabawheels.Prelude.Outcome.{Outcome, raised, returned, ◌>>=◌, ◌>>◌, require}
use zabawheels.Prelude.Dict.{has_id}
use zabawheels.Prelude.{
  ℕ, ◌+◌, ◌*◌, Bool, true, false, not, ◌&&◌, ◌||◌, Option, none, some, List, [], ◌∷◌, ◌++◌, map,
  Bytes, Text, codes, bytes_eq, starts_with, length, leb, ltb, ◌==◌, is_empty, if◌then◌else◌, drop,
  ◌-◌,
}
use zabawheels.Zpip.Names.{is_sha256}

-- `MAX_WHEEL_BYTES`
abbrev pub max_wheel_bytes : ℕ
max_wheel_bytes = 104857600

-- What a server sends: the length that it announces, 0 for none, and the chunks of the body as they are read.
pub record Response : Type 0 where
  pub announced : ℕ
  pub chunks : List Bytes

-- `while True: chunk = response.read(…)`: the bytes written so far, or the `ValueError` at the limit.
unfoldable pub read_body : List Bytes → Bytes → Outcome Bytes
read_body [] written = returned written
read_body (chunk ∷ chunks) written =
    let rest = read_body chunks (written ++ chunk) in
    if ltb max_wheel_bytes (length written + length chunk)
    then raised (codes "Wheel exceeds the 100 MiB safety limit")
    else rest

abbrev pub get_response : Option Response → Outcome Response
get_response none = raised (codes "urlopen error")
get_response (some response) = returned response

-- `_download`: the wheel's bytes. `fetch` is `urlopen`, `sha256` the hex digest.
unfoldable pub download : (Text → Option Response) → (Bytes → Text) → Text → Text → Outcome Bytes
download fetch sha256 url expected_hash = do
  require (starts_with (codes "https://") url) (codes "Only HTTPS wheel downloads are accepted")
  require (is_sha256 expected_hash) (codes "A valid SHA-256 is required")
  response ← get_response (fetch url)
  require (leb response.announced max_wheel_bytes) (codes "Wheel exceeds the 100 MiB safety limit")
  body ← read_body response.chunks []
  require (bytes_eq (sha256 body) expected_hash) (codes "SHA-256 mismatch")
  returned body

-- A member of a zip archive, with its bytes.
pub record Member : Type 0 where
  pub filename : Text
  pub is_dir : Bool
  pub file_size : ℕ
  pub content : Bytes

-- The pieces of a text between slashes; `piece` is the one being read.
unfoldable pub split_slashes : Text → Text → List Text
split_slashes piece [] = piece ∷ []
split_slashes piece (c ∷ text) =
    let new_piece = split_slashes [] text in
    let same_piece = split_slashes (piece ++ c ∷ []) text in
    if c == b'/' then piece ∷ new_piece else same_piece

-- A component that `PurePosixPath` drops.
abbrev pub is_dropped : Text → Bool
is_dropped part = is_empty part || bytes_eq part (codes ".")

unfoldable pub kept_parts : List Text → List Text
kept_parts [] = []
kept_parts (part ∷ parts) =
    let rest = kept_parts parts in if is_dropped part then rest else part ∷ rest

-- `PurePosixPath(name).parts`, but for the root of an absolute path.
unfoldable pub parts : Text → List Text
parts name = kept_parts (split_slashes [] name)

-- `PurePosixPath(name).is_absolute()`
abbrev pub is_absolute : Text → Bool
is_absolute name = starts_with (codes "/") name

-- The test of a member's path. `PurePosixPath` has no empty part, so the test for one adds nothing.
unfoldable pub is_unsafe : Text → Bool
is_unsafe filename = is_absolute filename || has_id (codes "..") (parts filename)

-- The loop of `_safe_members`, with the names seen, the total size and the members kept.
unfoldable pub scan_members : List Member → List Text → ℕ → List Member → Outcome (List Member)
scan_members [] seen total members = returned members
scan_members (m ∷ infolist) seen total members =
    let skipped = scan_members infolist seen total members in
    let kept =
      scan_members infolist (m.filename ∷ seen) (total + m.file_size) (members ++ m ∷ []) in
    if is_unsafe m.filename
    then raised (codes "Unsafe archive path: " ++ m.filename)
    else if has_id m.filename seen
    then raised (codes "Duplicate archive member: " ++ m.filename)
    else if m.is_dir
    then skipped
    else if ltb max_wheel_bytes m.file_size || ltb (max_wheel_bytes * 3) (total + m.file_size)
    then raised (codes "Uncompressed wheel content exceeds safety limit")
    else kept

-- `text.endswith(suffix)`
unfoldable pub ends_with_text : Text → Text → Bool
ends_with_text suffix text =
    leb (length suffix) (length text) && bytes_eq (drop (length text - length suffix) text) suffix

unfoldable pub any_ends_with : Text → List Member → Bool
any_ends_with suffix [] = false
any_ends_with suffix (m ∷ members) =
    ends_with_text suffix m.filename || any_ends_with suffix members

-- `_safe_members`, from the archive's directory.
unfoldable pub safe_members : List Member → Outcome (List Member)
safe_members infolist = do
  members ← scan_members infolist [] 0 []
  require (any_ends_with (codes ".dist-info/WHEEL") members) (codes "Wheel metadata is missing")
  require (any_ends_with (codes ".dist-info/RECORD") members) (codes "Wheel RECORD is missing")
  returned members

-- `path.resolve()` of a path with no links, from the parts that stand before.
unfoldable pub resolve_parts : List Text → List Text → List Text
resolve_parts done [] = done
resolve_parts done (part ∷ rest) =
    let above = resolve_parts (parent done) rest in
    let below = resolve_parts (done ++ part ∷ []) rest in
    if bytes_eq part (codes "..") then above else below
  where
    parent : List Text → List Text
    parent [] = []
    parent (p ∷ []) = []
    parent (p ∷ q ∷ ps) = p ∷ parent (q ∷ ps)

-- `root in path.parents or path == root`
unfoldable pub is_inside : List Text → List Text → Bool
is_inside [] path = true
is_inside (r ∷ root) [] = false
is_inside (r ∷ root) (p ∷ path) = bytes_eq r p && is_inside root path

-- `(staging / filename).resolve()`
unfoldable pub destination : List Text → Text → List Text
destination staging filename =
    resolve_parts (if is_absolute filename then [] else staging) (parts filename)

-- The loop of `_extract`: the names with their bytes, in the order of the archive.
unfoldable pub extract_members : List Text → List Member → Outcome (List (Text × Bytes))
extract_members staging [] = returned []
extract_members staging (m ∷ members) = do
  require (is_inside staging (destination staging m.filename))
      (codes "Wheel attempted to escape staging")
  rest ← extract_members staging members
  returned ((m.filename, m.content) ∷ rest)

-- `_extract`
unfoldable pub extract : List Text → List Member → Outcome (List (Text × Bytes))
extract staging infolist = do members ← safe_members infolist; extract_members staging members
