-- ===== src/Keystore/Master.antt =====
-- That the master secret stays the same from its first use on (app/zmux/keystore.py).
use zabawheels.Prelude.{
  ◌≡◌, refl, ap, ◌∙◌, ◌⊎◌, inl, inr, ℕ, true, Option, none, some, Bytes, IsBytes, length,
  if◌then◌else◌,
}
use zabawheels.Keystore.{Crypto, Vault, to_hex, secret_in, load_found, load_or_create}
use zabawheels.Keystore.Hex.{from_hex-to_hex, strip-to_hex}

-- What is documented of `secrets.token_bytes`: as many bytes as are asked for.
pub record HasRandom (c : Crypto) : Type 0 where
  pub length-random : (i n : ℕ) → length (c.random i n) ≡ n
  pub random-IsBytes : (i n : ℕ) → IsBytes (c.random i n)

-- The key file can be written, or holds a secret already.
abbrev pub IsLasting : Vault → Type 0
IsLasting v = (v.is_writable ≡ true) ⊎ ((secret : Bytes) × (secret_in v.key_file ≡ some secret))

secret_in-to_hex :
    (secret : Bytes)
    → IsBytes secret
    → length secret ≡ 32
    → secret_in (some (to_hex secret)) ≡ some secret
unfolding secret_in
secret_in-to_hex secret h n = rw (strip-to_hex secret h, from_hex-to_hex secret h, n) refl

load_found-again :
    (c : Crypto) (v : Vault) (o : Option Bytes)
    → HasRandom c
    → IsLasting v
    → secret_in v.key_file ≡ o
    → load_found c (secret_in (load_found c o v).1.key_file) (load_found c o v).1 ≡ load_found c o v
unfolding load_found
load_found-again c v (some secret) r lasting e = ap (λ o. load_found c o v) e
load_found-again c v none r (inr (secret, there)) e = cc (e, there)
load_found-again c v none r (inl writable) e =
    let secret = c.random v.drawn 32 in
    let held =
      ap (λ b. secret_in (if b then some (to_hex secret) else v.key_file)) writable
      ∙ secret_in-to_hex secret (r.random-IsBytes v.drawn 32) (r.length-random v.drawn 32) in
    ap (λ o. load_found c o (load_found c none v).1) held

-- Whatever the key file held, the first use of a vault whose key lasts leaves the secret it gave in the file, so
-- that every later use gives the same secret and changes nothing.
pub load_or_create-again :
    (c : Crypto) (v : Vault)
    → HasRandom c
    → IsLasting v
    → load_or_create c (load_or_create c v).1 ≡ load_or_create c v
unfolding load_or_create
load_or_create-again c v r lasting = load_found-again c v (secret_in v.key_file) r lasting refl
