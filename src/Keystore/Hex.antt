-- ===== src/Keystore/Hex.antt =====
-- Hexadecimal texts of app/zmux/keystore.py.
use zabawheels.Prelude.{
  ◌≡◌, refl, ap, ℕ, ◌/◌, ◌%◌, ◌<◌, false, some, [], ◌∷◌, Bytes, Text, IsBytes, arith, strip,
  strip_left, strip_right, is_space,
}
use zabawheels.Keystore.{hex_digit, to_hex, digit_value, hex_pair, is_blank, from_hex}

digit_value-hex_digit : (v : ℕ) → v < 16 → digit_value (hex_digit v) ≡ some v
unfolding digit_value
digit_value-hex_digit v h = ground arith

not_is_blank : (v : ℕ) → v < 16 → is_blank (hex_digit v) ≡ false
not_is_blank v h = ground arith

pub from_hex-to_hex : (bytes : Bytes) → IsBytes bytes → from_hex (to_hex bytes) ≡ some bytes
unfolding from_hex to_hex hex_pair
from_hex-to_hex [] h = refl
from_hex-to_hex (b ∷ bytes) (hb, h) =
    rw
      (
        not_is_blank (b / 16) (omega (arith, hb)),
        digit_value-hex_digit (b / 16) (omega (arith, hb)),
        digit_value-hex_digit (b % 16) (omega arith),
        from_hex-to_hex bytes h,
      )
      (ap (λ n. some (n ∷ bytes)) (omega arith))

-- A text without spaces.
abbrev HasNoSpace : Text → Type 0
HasNoSpace [] = Unit
HasNoSpace (c ∷ text) = (is_space c ≡ false) × HasNoSpace text

not_is_space : (v : ℕ) → v < 16 → is_space (hex_digit v) ≡ false
unfolding is_space
not_is_space v h = ground arith

to_hex-HasNoSpace : (bytes : Bytes) → IsBytes bytes → HasNoSpace (to_hex bytes)
unfolding to_hex
to_hex-HasNoSpace [] h = tt
to_hex-HasNoSpace (b ∷ bytes) (hb, h) = (
  not_is_space (b / 16) (omega (arith, hb)),
  (not_is_space (b % 16) (omega arith), to_hex-HasNoSpace bytes h),
)

strip_right-HasNoSpace : (text : Text) → HasNoSpace text → strip_right text ≡ text
unfolding strip_right
strip_right-HasNoSpace [] h = refl
strip_right-HasNoSpace (c ∷ []) (hc, h) = rw hc refl
strip_right-HasNoSpace (c ∷ d ∷ text) (hc, h) = rw (strip_right-HasNoSpace (d ∷ text) h) refl

strip-HasNoSpace : (text : Text) → HasNoSpace text → strip text ≡ text
unfolding strip strip_left
strip-HasNoSpace [] h = strip_right-HasNoSpace [] tt
strip-HasNoSpace (c ∷ text) (hc, h) = rw hc (strip_right-HasNoSpace (c ∷ text) (hc, h))

pub strip-to_hex : (bytes : Bytes) → IsBytes bytes → strip (to_hex bytes) ≡ to_hex bytes
strip-to_hex bytes h = strip-HasNoSpace (to_hex bytes) (to_hex-HasNoSpace bytes h)
