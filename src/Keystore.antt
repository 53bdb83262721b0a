-- ===== src/Keystore.antt =====
-- The encrypted storage of app/zmux/keystore.py.
pub mod Hex
pub mod Master
pub mod Cipher
pub mod RoundTrip
pub mod Tests
use Prim.Native.Nat.{bit_xor}
use zabawheels.Prelude.Int.{pos}
use zabawheels.Prelude.Json.{
  Json, null, boolean, number, string, array, object, Members, no_members, member, find_member,
}
use zabawheels.Prelude.{
  ℕ, zero, suc, ◌+◌, ◌-◌, ◌*◌, ◌/◌, ◌%◌, Bool, true, false, not, ◌&&◌, ◌||◌, Option, none, some,
  List, [], ◌∷◌, ◌++◌, Bytes, Text, codes, bytes_eq, length, take, drop, leb, ltb, ◌==◌, strip,
  if◌then◌else◌,
}
use zabawheels.Web.Frame.{to_bytes}

abbrev pub hex_digit : ℕ → ℕ
hex_digit v = if ltb v 10 then v + 48 else v + 87

-- `data.hex()`
unfoldable pub to_hex : Bytes → Text
to_hex [] = []
to_hex (b ∷ bytes) = hex_digit (b / 16) ∷ hex_digit (b % 16) ∷ to_hex bytes

unfoldable pub digit_value : ℕ → Option ℕ
digit_value c =
    if leb 48 c && leb c 57
    then some (c - 48)
    else if leb 97 c && leb c 102
    then some (c - 87)
    else if leb 65 c && leb c 70
    then some (c - 55)
    else none

unfoldable pub hex_pair : Option ℕ → Option ℕ → Option Bytes → Option Bytes
hex_pair (some high) (some low) (some rest) = some ((high * 16 + low) ∷ rest)
hex_pair _ _ _ = none

abbrev pub is_blank : ℕ → Bool
is_blank c = (leb 9 c && leb c 13) || c == 32

-- `bytes.fromhex(text)`: ASCII blanks between the bytes are passed over.
unfoldable pub from_hex : Text → Option Bytes
from_hex [] = some []
from_hex (c ∷ []) = if is_blank c then some [] else none
from_hex (c ∷ d ∷ text) =
    let skipped = from_hex (d ∷ text) in
    let rest = from_hex text in
    if is_blank c then skipped else hex_pair (digit_value c) (digit_value d) rest

-- The primitives: PBKDF2 with its rounds and length, HMAC-SHA256, JSON text, as text and as encoded bytes (nothing
-- where decoding or parsing raises), and the n-th draw of random bytes.
pub record Crypto : Type 0 where
  pub pbkdf2 : Bytes → Bytes → Bytes
  pub hmac : Bytes → Bytes → Bytes
  pub dumps : Json → Text
  pub loads : Text → Option Json
  pub dumps_bytes : Json → Bytes
  pub loads_bytes : Bytes → Option Json
  pub random : ℕ → ℕ → Bytes

-- The master key's file, whether it can be written, and how often random bytes were drawn. A file that cannot be
-- read is one with no key in it.
pub record Vault : Type 0 where
  pub key_file : Option Text
  pub is_writable : Bool
  pub drawn : ℕ

abbrev pub if_length : ℕ → Option Bytes → Option Bytes
if_length n none = none
if_length n (some bytes) = if length bytes == n then some bytes else none

-- The secret that the file holds.
unfoldable pub secret_in : Option Text → Option Bytes
secret_in none = none
secret_in (some raw) = if_length 32 (from_hex (strip raw))

unfoldable pub xor_bytes : Bytes → Bytes → Bytes
xor_bytes (a ∷ xs) (b ∷ ys) = bit_xor a b ∷ xor_bytes xs ys
xor_bytes _ _ = []

-- The three fields of an envelope.
pub record Envelope : Type 0 where
  pub nonce : Bytes
  pub ciphertext : Bytes
  pub tag : Bytes

abbrev pub empty_dict : Json
empty_dict = object no_members

abbrev pub envelope_json : Text → Text → Text → Json
envelope_json nonce ciphertext tag = object (
    member (codes "v") (number (pos 1)) (
      member (codes "nonce") (string nonce)
        (member (codes "data") (string ciphertext) (member (codes "tag") (string tag) no_members))))

-- `parsed.get("v") != 1`; in Python `True` is 1 as well.
unfoldable pub is_version : Option Json → Bool
is_version (some (number (pos n))) = n == 1
is_version (some (boolean b)) = b
is_version _ = false

unfoldable pub hex_field : Text → Members → Option Bytes
hex_field key js = elim (find_member key js) [ some (string text) ↦ from_hex text | _ ↦ none ]

unfoldable pub envelope_of : Option Bytes → Option Bytes → Option Bytes → Option Envelope
envelope_of (some nonce) (some ciphertext) (some tag) =
    if length nonce == 16 && length tag == 32
    then some (record { nonce = nonce; ciphertext = ciphertext; tag = tag })
    else none
envelope_of _ _ _ = none

-- The first half of `decrypt_payload`; where it raises, the answer is `{}` as well.
unfoldable pub parse_envelope : Option Json → Option Envelope
parse_envelope (some (object js)) =
    if is_version (find_member (codes "v") js)
    then envelope_of (hex_field (codes "nonce") js) (hex_field (codes "data") js)
        (hex_field (codes "tag") js)
    else none
parse_envelope _ = none

abbrev pub dict_or_empty : Option Json → Json
dict_or_empty (some (object js)) = object js
dict_or_empty _ = empty_dict

module _ (c : Crypto) where
  unfoldable pub load_found : Option Bytes → Vault → Bytes × Vault
  load_found (some secret) v = (secret, v)
  load_found none v =
      let secret = c.random v.drawn 32 in
      (
        secret,
        record v {
          key_file = if v.is_writable then some (to_hex secret) else v.key_file;
          drawn = suc v.drawn;
        },
      )

  -- `_load_or_create_master_secret`
  unfoldable pub load_or_create : Vault → Bytes × Vault
  load_or_create v = load_found (secret_in v.key_file) v

  -- `_derive_keys`
  unfoldable pub derive_keys : Bytes → Vault → (Bytes × Bytes) × Vault
  derive_keys nonce v =
      let (secret, v') = load_or_create v in
      let material = c.pbkdf2 secret nonce in ((take 32 material, drop 32 material), v')

  -- The loop of `_keystream`, with a round left for each byte that is missing.
  unfoldable pub keystream_loop : ℕ → Bytes → ℕ → ℕ → Bytes → Bytes
  keystream_loop zero key size counter out = out
  keystream_loop (suc fuel) key size counter out =
      let more =
        keystream_loop fuel key size (suc counter) (out ++ c.hmac key (to_bytes 8 counter)) in
      if ltb (length out) size then more else out

  -- `_keystream`
  unfoldable pub keystream : Bytes → ℕ → Bytes
  keystream key size = take size (keystream_loop size key size 0 [])

  -- The cipher of both directions.
  unfoldable pub cipher : Bytes → Bytes → Bytes
  cipher key text = xor_bytes text (keystream key (length text))

  abbrev pub tag_of : Bytes → Bytes → Bytes → Bytes
  tag_of mac_key nonce ciphertext = c.hmac mac_key (nonce ++ ciphertext)

  unfoldable pub sealed : Bytes → Bytes → (Bytes × Bytes) × Vault → Text × Vault
  sealed plaintext nonce ((enc_key, mac_key), v) =
      let ciphertext = cipher enc_key plaintext in
      (
        c.dumps (
            envelope_json (to_hex nonce) (to_hex ciphertext)
              (to_hex (tag_of mac_key nonce ciphertext))),
        v,
      )

  -- `encrypt_payload`
  unfoldable pub encrypt_payload : Json → Vault → Text × Vault
  encrypt_payload payload v =
      let nonce = c.random v.drawn 16 in
      sealed (c.dumps_bytes payload) nonce (derive_keys nonce (record v { drawn = suc v.drawn }))

  unfoldable pub opened : Envelope → (Bytes × Bytes) × Vault → Json × Vault
  opened e ((enc_key, mac_key), v) =
      if bytes_eq e.tag (tag_of mac_key e.nonce e.ciphertext)
      then (dict_or_empty (c.loads_bytes (cipher enc_key e.ciphertext)), v)
      else (empty_dict, v)

  unfoldable pub open_envelope : Option Envelope → Vault → Json × Vault
  open_envelope none v = (empty_dict, v)
  open_envelope (some e) v = opened e (derive_keys e.nonce v)

  -- `decrypt_payload`
  unfoldable pub decrypt_payload : Text → Vault → Json × Vault
  decrypt_payload text v = open_envelope (parse_envelope (c.loads text)) v
