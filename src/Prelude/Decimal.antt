-- ===== src/Prelude/Decimal.antt =====
-- `str(n)`: the decimal digits of a number, and that two numbers never share them.
use Prim.Native.Nat.{ℕ, zero, suc, ◌+◌, ◌-◌, ◌*◌, ◌/◌, ◌%◌, ◌<◌}
use mathlib.Core.List.{[], ◌∷◌, ◌++◌}
use mathlib.Core.Path.{◌≡◌, refl, sym, ap, ◌∙◌}
use native.Mathlib.Omega.{arith}
use zabawheels.Prelude.Tests.{ltb, if◌then◌else◌}
use zabawheels.Prelude.Buffers.{Bytes}

-- The fuel bounds the digits; a number has at most as many digits as its value plus one.
unfoldable pub digits_of : ℕ → ℕ → Bytes
digits_of zero n = []
digits_of (suc f) n =
    let front = digits_of f (n / 10) in
    if ltb n 10 then (48 + n) ∷ [] else front ++ (48 + n % 10) ∷ []

unfoldable pub str : ℕ → Bytes
unfolding digits_of
str n = digits_of (suc n) n

abbrev value_from : ℕ → Bytes → ℕ
value_from acc [] = acc
value_from acc (c ∷ cs) = value_from (acc * 10 + (c - 48)) cs

value_from-append :
    (acc : ℕ) (xs : Bytes) (c : ℕ)
    → value_from acc (xs ++ c ∷ []) ≡ value_from acc xs * 10 + (c - 48)
value_from-append acc [] c = refl
value_from-append acc (x ∷ xs) c = value_from-append (acc * 10 + (x - 48)) xs c

value_from-digits_of : (f n : ℕ) → n < f → value_from 0 (digits_of f n) ≡ n
unfolding digits_of
value_from-digits_of zero n h = absurd (omega arith)
value_from-digits_of (suc f) n h = ground (
  arith,
  value_from-digits_of f (n / 10),
  value_from-append 0 (digits_of f (n / 10)) (48 + n % 10),
)

value_from-str : (n : ℕ) → value_from 0 (str n) ≡ n
unfolding str
value_from-str n = value_from-digits_of (suc n) n (omega arith)

pub str-injective : (m n : ℕ) → str m ≡ str n → m ≡ n
str-injective m n e = sym (value_from-str m) ∙ ap (value_from 0) e ∙ value_from-str n
