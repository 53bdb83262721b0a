-- ===== src/Keystore/Tests.antt =====
-- The encrypted storage with primitives in small, and the theorems at that input.
use zabawheels.Prelude.{
  ◌≡◌, ◌⊎◌, refl, ap, inl, ℕ, zero, suc, ◌%◌, ◌<◌, true, Option, none, some, [], ◌∷◌, ◌++◌, Bytes,
  Text, IsBytes, codes, arith, length, take, drop, bytes_eq, take-append_self, drop-append_self,
  if◌then◌else◌,
}
use zabawheels.Prelude.Json.{Json, string, object, Members, no_members, member, find_member}
use zabawheels.Keystore.{
  Crypto, Vault, envelope_json, encrypt_payload, decrypt_payload, empty_dict, parse_envelope,
  cipher,
}
use zabawheels.Keystore.Master.{HasRandom}
use zabawheels.Keystore.Cipher.{HasDigests, cipher_twice}
use zabawheels.Keystore.RoundTrip.{
  IsAuthentic, decrypt_payload-encrypt_payload, decrypt_payload-IsAuthentic,
}

abbrev repeat : ℕ → ℕ → Bytes
repeat zero b = []
repeat (suc n) b = b ∷ repeat n b

length-repeat : (n b : ℕ) → length (repeat n b) ≡ n
length-repeat zero b = refl
length-repeat (suc n) b = ap suc (length-repeat n b)

repeat-IsBytes : (n b : ℕ) → b < 256 → IsBytes (repeat n b)
repeat-IsBytes zero b h = tt
repeat-IsBytes (suc n) b h = (h, repeat-IsBytes n b h)

abbrev text_in : Option Json → Text
text_in (some (string text)) = text
text_in _ = []

abbrev field : Text → Json → Text
field key (object js) = text_in (find_member key js)
field key _ = []

-- The data that is stored.
abbrev tokens : Members
tokens = member (codes "token") (string (codes "abc")) no_members

-- An envelope's text: the lengths of two fields, and the fields.
abbrev small_dumps : Text → Text → Text → Text
small_dumps nonce ciphertext tag = length nonce ∷ length ciphertext ∷ nonce ++ (ciphertext ++ tag)

abbrev small_loads : Text → Option Json
small_loads (n ∷ k ∷ text) =
    some (envelope_json (take n text) (take k (drop n text)) (drop k (drop n text)))
small_loads _ = none

abbrev small : Crypto
small = record {
  pbkdf2 = λ secret nonce. secret ++ secret;
  hmac = λ key message. repeat 32 (length message % 256);
  dumps =
      λ j. small_dumps (field (codes "nonce") j) (field (codes "data") j) (field (codes "tag") j);
  loads = small_loads;
  dumps_bytes = λ j. 1 ∷ 2 ∷ 3 ∷ [];
  loads_bytes = λ bytes. if bytes_eq bytes (1 ∷ 2 ∷ 3 ∷ []) then some (object tokens) else none;
  random = λ i n. repeat n 7;
}

small-HasDigests : HasDigests small
small-HasDigests = record {
  length-hmac = λ key message. length-repeat 32 (length message % 256);
  hmac-IsBytes = λ key message. repeat-IsBytes 32 (length message % 256) (omega arith);
}

small-HasRandom : HasRandom small
small-HasRandom = record {
  length-random = λ i n. length-repeat n 7;
  random-IsBytes = λ i n. repeat-IsBytes n 7 (omega arith);
}

small_text :
    (nonce ciphertext tag : Text)
    → small.loads (small.dumps (envelope_json nonce ciphertext tag))
      ≡ some (envelope_json nonce ciphertext tag)
unfolding find_member bytes_eq
small_text nonce ciphertext tag =
    rw
      (
        take-append_self nonce (ciphertext ++ tag),
        drop-append_self nonce (ciphertext ++ tag),
        take-append_self ciphertext tag,
        drop-append_self ciphertext tag,
      )
      refl

-- A device on which no key was made yet.
abbrev fresh : Vault
fresh = record { key_file = none; is_writable = true; drawn = 0 }

decrypt_payload-encrypt_payload_example :
    decrypt_payload small
      (encrypt_payload small (object tokens) fresh).0
      (encrypt_payload small (object tokens) fresh).1
    ≡ (object tokens, (encrypt_payload small (object tokens) fresh).1)
unfolding bytes_eq
decrypt_payload-encrypt_payload_example =
    decrypt_payload-encrypt_payload small tokens fresh small-HasDigests small-HasRandom small_text
      refl (omega arith, (omega arith, (omega arith, tt))) (inl refl)

decrypt_payload-IsAuthentic_example :
    ((decrypt_payload small (0 ∷ 0 ∷ []) fresh).0 ≡ empty_dict)
    ⊎ IsAuthentic small fresh (parse_envelope (small.loads (0 ∷ 0 ∷ [])))
decrypt_payload-IsAuthentic_example = decrypt_payload-IsAuthentic small (0 ∷ 0 ∷ []) fresh

cipher_twice_example :
    cipher small (repeat 32 5) (cipher small (repeat 32 5) (1 ∷ 2 ∷ 3 ∷ [])) ≡ 1 ∷ 2 ∷ 3 ∷ []
cipher_twice_example =
    cipher_twice small small-HasDigests (repeat 32 5) (1 ∷ 2 ∷ 3 ∷ [])
      (omega arith, (omega arith, (omega arith, tt)))
