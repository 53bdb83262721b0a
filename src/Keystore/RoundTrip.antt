-- ===== src/Keystore/RoundTrip.antt =====
-- What `encrypt_payload` writes `decrypt_payload` reads, and nothing else (app/zmux/keystore.py).
use zabawheels.Prelude.{
  ◌≡◌, refl, ap, ◌∙◌, ◌⊎◌, inl, inr, suc, Option, none, some, ◌++◌, Bytes, Text, IsBytes, length,
  bytes_eq, bytes_eq_iff, bytes_eq_refl, take, drop, if-elim_eq,
}
use zabawheels.Prelude.Json.{Json, object, Members, find_member}
use zabawheels.Keystore.{
  Crypto, Vault, Envelope, to_hex, hex_field, envelope_of, is_version, parse_envelope,
  envelope_json, empty_dict, dict_or_empty, derive_keys, cipher, tag_of, sealed, opened,
  open_envelope, encrypt_payload, decrypt_payload,
}
use zabawheels.Keystore.Hex.{from_hex-to_hex}
use zabawheels.Keystore.Master.{HasRandom, IsLasting, load_or_create-again}
use zabawheels.Keystore.Cipher.{HasDigests, cipher_twice, cipher-IsBytes}

parse_envelope-envelope_json :
    (nonce ciphertext tag : Bytes)
    → IsBytes nonce
    → IsBytes ciphertext
    → IsBytes tag
    → length nonce ≡ 16
    → length tag ≡ 32
    → parse_envelope (some (envelope_json (to_hex nonce) (to_hex ciphertext) (to_hex tag)))
      ≡ some (record { nonce = nonce; ciphertext = ciphertext; tag = tag })
unfolding parse_envelope is_version find_member hex_field envelope_of bytes_eq
parse_envelope-envelope_json nonce ciphertext tag a b d n t =
    rw (from_hex-to_hex nonce a, from_hex-to_hex ciphertext b, from_hex-to_hex tag d, n, t) refl

derive_keys-again :
    (c : Crypto) (nonce : Bytes) (v : Vault)
    → HasRandom c
    → IsLasting v
    → derive_keys c nonce (derive_keys c nonce v).1 ≡ derive_keys c nonce v
unfolding derive_keys
derive_keys-again c nonce v r lasting =
    ap (λ l. ((take 32 (c.pbkdf2 l.0 nonce), drop 32 (c.pbkdf2 l.0 nonce)), l.1))
      (load_or_create-again c v r lasting)

opened-sealed :
    (c : Crypto) (plaintext nonce : Bytes) (keys : (Bytes × Bytes) × Vault)
    → HasDigests c
    → IsBytes plaintext
    → opened c
        (record {
          nonce = nonce;
          ciphertext = cipher c keys.0.0 plaintext;
          tag = tag_of c keys.0.1 nonce (cipher c keys.0.0 plaintext);
        })
        keys
      ≡ (dict_or_empty (c.loads_bytes plaintext), keys.1)
unfolding opened
opened-sealed c plaintext nonce ((enc_key, mac_key), v) digests h =
    rw
      (
        bytes_eq_refl (tag_of c mac_key nonce (cipher c enc_key plaintext)),
        cipher_twice c digests enc_key plaintext h,
      )
      refl

-- An object whose JSON text is read back as it was, that is encrypted where the master key's file can be
-- written or holds a key, is what decryption of the envelope gives, with the vault as encryption left it, for
-- primitives that give digests of 32 bytes, random bytes as many as asked for, and an envelope's text back.
pub decrypt_payload-encrypt_payload :
    (c : Crypto) (js : Members) (v : Vault)
    → HasDigests c
    → HasRandom c
    → ((nonce ciphertext tag : Text)
        → c.loads (c.dumps (envelope_json nonce ciphertext tag))
          ≡ some (envelope_json nonce ciphertext tag))
    → c.loads_bytes (c.dumps_bytes (object js)) ≡ some (object js)
    → IsBytes (c.dumps_bytes (object js))
    → IsLasting v
    → decrypt_payload c (encrypt_payload c (object js) v).0 (encrypt_payload c (object js) v).1
      ≡ (object js, (encrypt_payload c (object js) v).1)
unfolding decrypt_payload encrypt_payload sealed open_envelope
decrypt_payload-encrypt_payload c js v digests random text payload bytes lasting =
    let nonce = c.random v.drawn 16 in
    let plaintext = c.dumps_bytes (object js) in
    let w : Vault = record v { drawn = suc v.drawn } in
    let keys = derive_keys c nonce w in
    let ciphertext = cipher c keys.0.0 plaintext in
    let tag = tag_of c keys.0.1 nonce ciphertext in
    let parsed =
      ap parse_envelope (text (to_hex nonce) (to_hex ciphertext) (to_hex tag))
      ∙ parse_envelope-envelope_json nonce ciphertext tag (random.random-IsBytes v.drawn 16)
          (cipher-IsBytes c digests keys.0.0 plaintext bytes)
          (digests.hmac-IsBytes keys.0.1 (nonce ++ ciphertext)) (random.length-random v.drawn 16)
          (digests.length-hmac keys.0.1 (nonce ++ ciphertext)) in
    ap (λ e. open_envelope c e keys.1) parsed
    ∙ ap (opened c (record { nonce = nonce; ciphertext = ciphertext; tag = tag }))
        (derive_keys-again c nonce w random lasting)
    ∙ opened-sealed c plaintext nonce keys digests bytes
    ∙ ap (λ j. (dict_or_empty j, keys.1)) payload

opened-authentic :
    (c : Crypto) (e : Envelope) (keys : (Bytes × Bytes) × Vault)
    → ((opened c e keys).0 ≡ empty_dict) ⊎ (e.tag ≡ tag_of c keys.0.1 e.nonce e.ciphertext)
unfolding opened
opened-authentic c e ((enc_key, mac_key), v) =
    if-elim_eq {A = Json × Vault}
      (λ r. (r.0 ≡ empty_dict) ⊎ (e.tag ≡ tag_of c mac_key e.nonce e.ciphertext))
      (bytes_eq e.tag (tag_of c mac_key e.nonce e.ciphertext))
      (λ same. inr ((bytes_eq_iff e.tag (tag_of c mac_key e.nonce e.ciphertext)).0 same))
      (λ other. inl refl)

-- What an answer other than the empty object shows of the envelope that was found.
abbrev pub IsAuthentic : Crypto → Vault → Option Envelope → Type 0
IsAuthentic c v found =
    (e : Envelope) × ((found ≡ some e)
      × (e.tag ≡ tag_of c (derive_keys c e.nonce v).0.1 e.nonce e.ciphertext))

open_envelope-IsAuthentic :
    (c : Crypto) (found : Option Envelope) (v : Vault)
    → ((open_envelope c found v).0 ≡ empty_dict) ⊎ IsAuthentic c v found
unfolding open_envelope
open_envelope-IsAuthentic c none v = inl refl
open_envelope-IsAuthentic c (some e) v = elim (opened-authentic c e (derive_keys c e.nonce v)) [
  | inl empty ↦ inl empty
  | inr tag ↦ inr (e, (refl, tag))
]

-- Whatever text is decrypted: the answer is the empty object, or the text is an envelope whose tag is the
-- authentication code of its nonce and ciphertext under the key of this installation.
pub decrypt_payload-IsAuthentic :
    (c : Crypto) (text : Text) (v : Vault)
    → ((decrypt_payload c text v).0 ≡ empty_dict) ⊎ IsAuthentic c v (parse_envelope (c.loads text))
unfolding decrypt_payload
decrypt_payload-IsAuthentic c text v = open_envelope-IsAuthentic c (parse_envelope (c.loads text)) v
