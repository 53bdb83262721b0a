-- ===== src/Prelude/Chars.antt =====
-- Python's `str` as a list of code points: `strip`, `encode` and equality with a literal.
use Prim.Native.Nat.{ℕ, ◌+◌, ◌/◌, ◌%◌}
use Prim.Native.String.{String}
use mathlib.Core.Bool.{Bool, false, ◌&&◌, ◌||◌}
use mathlib.Core.Path.{◌≡◌, refl, sym, ap, ◌∙◌}
use mathlib.Core.List.{append_assoc, List, [], ◌∷◌, ◌++◌}
use zabawheels.Prelude.Tests.{leb, ltb, ◌==◌, if◌then◌else◌}
use zabawheels.Prelude.Buffers.{Bytes, codes, bytes_eq}

abbrev pub Text : Type 0
Text = List ℕ

abbrev within : ℕ → ℕ → ℕ → Bool
within lo hi c = leb lo c && leb c hi

-- `c.isspace()`
unfoldable pub is_space : ℕ → Bool
is_space c =
    within 9 13 c
    || within 28 32 c
    || c == 0x85
    || c == 0xa0
    || c == 0x1680
    || within 0x2000 0x200a c
    || within 0x2028 0x2029 c
    || c == 0x202f
    || c == 0x205f
    || c == 0x3000

unfoldable pub strip_left : Text → Text
unfolding is_space
strip_left [] = []
strip_left (c ∷ s) = let rest = strip_left s in if is_space c then rest else c ∷ s

-- A text whose items are all blank is stripped away; else the front item stays.
unfoldable pub strip_right : Text → Text
unfolding is_space
strip_right [] = []
strip_right (c ∷ s) =
    let rest = strip_right s in
    elim rest [ [] ↦ if is_space c then [] else c ∷ [] | d ∷ r ↦ c ∷ d ∷ r ]

-- `s.strip()`
unfoldable pub strip : Text → Text
unfolding strip_left strip_right
strip s = strip_right (strip_left s)

-- The UTF-8 bytes of a code point, and `?` for a surrogate.
unfoldable pub utf8 : ℕ → Bytes
utf8 c =
    if within 0xd800 0xdfff c
    then b'?' ∷ []
    else if ltb c 0x80
    then c ∷ []
    else if ltb c 0x800
    then (0xc0 + c / 64) ∷ (0x80 + c % 64) ∷ []
    else if ltb c 0x10000
    then (0xe0 + c / 4096) ∷ (0x80 + c / 64 % 64) ∷ (0x80 + c % 64) ∷ []
    else (0xf0 + c / 262144) ∷ (0x80 + c / 4096 % 64) ∷ (0x80 + c / 64 % 64) ∷ (0x80 + c % 64) ∷ []

-- `s.encode("utf-8", errors="replace")`
unfoldable pub encode : Text → Bytes
unfolding utf8
encode [] = []
encode (c ∷ s) = utf8 c ++ encode s

pub encode-append : (s t : Text) → encode (s ++ t) ≡ encode s ++ encode t
unfolding encode
encode-append [] t = refl
encode-append (c ∷ s) t =
    ap (λ u. utf8 c ++ u) (encode-append s t) ∙ sym (append_assoc (utf8 c) (encode s) (encode t))

-- `s in {…}`, for a set of literals.
unfoldable pub one_of : List String → Text → Bool
unfolding bytes_eq
one_of [] s = false
one_of (w ∷ ws) s = bytes_eq s (codes w) || one_of ws s
