-- ===== src/Keystore/Cipher.antt =====
-- The keystream is long enough, and the cipher undoes itself (app/zmux/keystore.py).
use zabawheels.Prelude.{
  ◌≡◌, refl, ap, ap₂, ◌∙◌, ℕ, zero, suc, ◌+◌, ◌≤◌, [], ◌∷◌, ◌++◌, Bytes, IsBytes, arith, length,
  take, ltb, length-append, length-take, if-elim, if-elim_eq,
}
use zabawheels.Prelude.Xor.{bit_xor_twice, bit_xor_lt}
use zabawheels.Web.Frame.{to_bytes}
use zabawheels.Keystore.{Crypto, xor_bytes, keystream_loop, keystream, cipher}

-- What is documented of HMAC-SHA256: a digest of 32 bytes.
pub record HasDigests (c : Crypto) : Type 0 where
  pub length-hmac : (key message : Bytes) → length (c.hmac key message) ≡ 32
  pub hmac-IsBytes : (key message : Bytes) → IsBytes (c.hmac key message)

IsBytes-append : (xs ys : Bytes) → IsBytes xs → IsBytes ys → IsBytes (xs ++ ys)
IsBytes-append [] ys h k = k
IsBytes-append (x ∷ xs) ys (hx, h) k = (hx, IsBytes-append xs ys h k)

pub IsBytes-take : (n : ℕ) (xs : Bytes) → IsBytes xs → IsBytes (take n xs)
IsBytes-take zero xs h = tt
IsBytes-take (suc n) [] h = tt
IsBytes-take (suc n) (x ∷ xs) (hx, h) = (hx, IsBytes-take n xs h)

module _ (c : Crypto) (digests : HasDigests c) where
  keystream_loop-IsBytes :
      (fuel : ℕ) (key : Bytes) (size counter : ℕ) (out : Bytes)
      → IsBytes out
      → IsBytes (keystream_loop c fuel key size counter out)
  unfolding keystream_loop
  keystream_loop-IsBytes zero key size counter out h = h
  keystream_loop-IsBytes (suc fuel) key size counter out h =
      if-elim {A = Bytes} IsBytes (ltb (length out) size)
        (keystream_loop-IsBytes fuel key size (suc counter) _
          (IsBytes-append out _ h (digests.hmac-IsBytes key _)))
        h

  -- A round for each missing byte is enough.
  length-keystream_loop :
      (fuel : ℕ) (key : Bytes) (size counter : ℕ) (out : Bytes)
      → size ≤ length out + fuel
      → size ≤ length (keystream_loop c fuel key size counter out)
  unfolding keystream_loop
  length-keystream_loop zero key size counter out h = omega (arith, h)
  length-keystream_loop (suc fuel) key size counter out h =
      let more = length-append out (c.hmac key (to_bytes 8 counter)) in
      if-elim_eq {A = Bytes} (λ r. size ≤ length r) (ltb (length out) size)
        (λ short.
          length-keystream_loop fuel key size (suc counter) _
            (omega (arith, h, more, digests.length-hmac key (to_bytes 8 counter))))
        (λ enough. ground (arith, enough))

  pub length-keystream : (key : Bytes) (size : ℕ) → length (keystream c key size) ≡ size
  unfolding keystream
  length-keystream key size =
      length-take size _ ∙ omega (arith, length-keystream_loop size key size 0 [] (omega arith))

  keystream-IsBytes : (key : Bytes) (size : ℕ) → IsBytes (keystream c key size)
  unfolding keystream
  keystream-IsBytes key size = IsBytes-take size _ (keystream_loop-IsBytes size key size 0 [] tt)

  pub length-xor_bytes :
      (xs ys : Bytes) → length xs ≤ length ys → length (xor_bytes xs ys) ≡ length xs
  unfolding xor_bytes
  length-xor_bytes [] ys h = refl
  length-xor_bytes (x ∷ xs) [] h = omega (arith, h)
  length-xor_bytes (x ∷ xs) (y ∷ ys) h = ap suc (length-xor_bytes xs ys (omega (arith, h)))

  xor_bytes_twice :
      (xs ys : Bytes)
      → length xs ≤ length ys
      → IsBytes xs
      → IsBytes ys
      → xor_bytes (xor_bytes xs ys) ys ≡ xs
  unfolding xor_bytes
  xor_bytes_twice [] ys h a b = refl
  xor_bytes_twice (x ∷ xs) [] h a b = ground (arith, h)
  xor_bytes_twice (x ∷ xs) (y ∷ ys) h (hx, a) (hy, b) =
      ap₂ (◌∷◌) (bit_xor_twice x y hx hy) (xor_bytes_twice xs ys (omega (arith, h)) a b)

  xor_bytes-IsBytes : (xs ys : Bytes) → IsBytes xs → IsBytes ys → IsBytes (xor_bytes xs ys)
  unfolding xor_bytes
  xor_bytes-IsBytes [] ys a b = tt
  xor_bytes-IsBytes (x ∷ xs) [] a b = tt
  xor_bytes-IsBytes (x ∷ xs) (y ∷ ys) (hx, a) (hy, b) =
      (bit_xor_lt x y hx hy, xor_bytes-IsBytes xs ys a b)

  pub cipher-IsBytes : (key text : Bytes) → IsBytes text → IsBytes (cipher c key text)
  unfolding cipher
  cipher-IsBytes key text h = xor_bytes-IsBytes text _ h (keystream-IsBytes key (length text))

  -- For primitives whose digests are 32 bytes, the cipher with one key undoes itself on any bytes: the keystream is
  -- as long as the text, whatever its length.
  pub cipher_twice : (key text : Bytes) → IsBytes text → cipher c key (cipher c key text) ≡ text
  unfolding cipher
  cipher_twice key text h =
      let long = length-keystream key (length text) in
      let same = length-xor_bytes text (keystream c key (length text)) (omega (arith, long)) in
      rw same (
        xor_bytes_twice text (keystream c key (length text)) (omega (arith, long)) h
          (keystream-IsBytes key (length text)))
