-- ===== src/Zpip/Names.antt =====
-- Names of packages: `_NAME`, `_SHA256`, `canonicalize` and `_import_name` (app/zmux/zpip.py).
use zabawheels.Prelude.Outcome.{Outcome, raised, returned}
use zabawheels.Prelude.{
  ℕ, ◌+◌, Bool, true, false, ◌&&◌, ◌||◌, [], ◌∷◌, Text, codes, bytes_eq, strip, length, leb, ◌==◌,
  if◌then◌else◌,
}

abbrev pub is_upper : ℕ → Bool
is_upper c = leb b'A' c && leb c b'Z'

abbrev pub is_lower : ℕ → Bool
is_lower c = leb b'a' c && leb c b'z'

abbrev pub is_digit : ℕ → Bool
is_digit c = leb b'0' c && leb c b'9'

abbrev pub is_alnum : ℕ → Bool
is_alnum c = is_upper c || is_lower c || is_digit c

-- `[-_.]`
abbrev pub is_separator : ℕ → Bool
is_separator c = c == b'-' || c == b'_' || c == b'.'

unfoldable pub all_chars : (ℕ → Bool) → Text → Bool
all_chars test [] = true
all_chars test (c ∷ text) = test c && all_chars test text

-- `_NAME.fullmatch(name)`
unfoldable pub is_name : Text → Bool
is_name [] = false
is_name (c ∷ name) =
    is_alnum c && all_chars (λ d. is_alnum d || is_separator d) name && leb (length name) 127

-- `_SHA256.fullmatch(digest)`
unfoldable pub is_sha256 : Text → Bool
is_sha256 digest =
    all_chars (λ c. (leb b'a' c && leb c b'f') || is_digit c) digest && length digest == 64

-- `name.lower()`, of an ASCII name.
unfoldable pub lower : Text → Text
lower [] = []
lower (c ∷ name) = (if is_upper c then c + 32 else c) ∷ lower name

-- `re.sub(r"[-_.]+", "-", name)`; the first argument tells whether the run of separators that a name
-- continues has had its dash.
unfoldable pub dashed : Bool → Text → Text
dashed dash [] = []
dashed dash (c ∷ name) =
    let within = dashed true name in
    let outside = dashed false name in
    if is_separator c then if dash then within else b'-' ∷ within else c ∷ outside

-- `canonicalize`
unfoldable pub canonicalize : Text → Outcome Text
canonicalize name =
    let stripped = strip name in
    if is_name stripped
    then returned (dashed false (lower stripped))
    else raised (codes "Invalid package name")

-- `name.replace(old, new)`, for single characters.
unfoldable pub replace_char : ℕ → ℕ → Text → Text
replace_char old new [] = []
replace_char old new (c ∷ text) = (if c == old then new else c) ∷ replace_char old new text

-- `_import_name`
unfoldable pub import_name : Text → Text
import_name name =
    if bytes_eq name (codes "beautifulsoup4")
    then codes "bs4"
    else if bytes_eq name (codes "pillow")
    then codes "PIL"
    else if bytes_eq name (codes "python-dotenv")
    then codes "dotenv"
    else if bytes_eq name (codes "pyyaml")
    then codes "yaml"
    else if bytes_eq name (codes "pyjwt")
    then codes "jwt"
    else replace_char b'-' b'_' name
