-- ===== src/Rest/Token.antt =====
-- The token of app/zmux/security.py.
use zabawheels.Prelude.{
  Bool, true, false, ◌&&◌, Option, none, some, [], ◌∷◌, Text, bytes_eq, ltb, leb, length, strip,
  if◌then◌else◌,
}

-- The file of the token: it is not there, it cannot be read, or it has a text.
pub data TokenFile : Type 0 where
  absent : TokenFile
  unreadable : TokenFile
  holds : Text → TokenFile

-- `TOKEN_FILE.write_text`; `None` of the code, where it fails, leaves the file.
abbrev write_token : Bool → Text → TokenFile → TokenFile
write_token false token file = file
write_token true token file = holds token

-- A new token, kept where the file can be written.
abbrev new_token : Bool → Text → TokenFile → Text × TokenFile
new_token can_write fresh file = (fresh, write_token can_write fresh file)

-- `_load_or_create_token`, with what `secrets.token_hex(16)` draws.
unfoldable pub load_or_create_token : Bool → Text → TokenFile → Text × TokenFile
load_or_create_token can_write fresh absent = new_token can_write fresh absent
load_or_create_token can_write fresh unreadable = new_token can_write fresh unreadable
load_or_create_token can_write fresh (holds text) =
    if leb 16 (length (strip text))
    then (strip text, holds text)
    else new_token can_write fresh (holds text)

unfoldable pub is_ascii : Text → Bool
is_ascii [] = true
is_ascii (c ∷ text) = ltb c 128 && is_ascii text

-- `hmac.compare_digest` of two texts; `none` is its exception for texts that are not ASCII.
unfoldable pub compare_digest : Text → Text → Option Bool
compare_digest a b = if is_ascii a && is_ascii b then some (bytes_eq a b) else none

-- `verify_token`
unfoldable pub verify_token : Text → Text → Option Bool
verify_token auth_token [] = some false
verify_token auth_token (c ∷ token) = compare_digest (c ∷ token) auth_token
