-- ===== src/Prelude/Buffers.antt =====
-- Byte strings as lists of numbers below 256, with the comparisons that Python's `bytes` has.
use Prim.Native.Char.{code}
use Prim.Native.String.{String}
use mathlib.Core.Bool.{Bool, true, false, ◌&&◌}
use mathlib.Core.List.{List, [], ◌∷◌, ◌++◌}
use mathlib.Core.Logic.{◌↔◌, ◌≢◌}
use mathlib.Core.Option.{Option, none, some}
use mathlib.Core.Option
use mathlib.Core.Path.{◌≡◌, refl}
use Prim.Native.Nat.{ℕ, suc, ◌<◌}
use native.Mathlib.Omega.{arith}
use zabawheels.Prelude.Tests.{◌==◌, if◌then◌else◌}

abbrev pub Bytes : Type 0
Bytes = List ℕ

-- The code points of a literal: its bytes, since every literal of the model is ASCII.
abbrev pub codes : String → Bytes
codes String.[] = []
codes (String.◌∷◌ c s) = code c ∷ codes s

unfoldable pub bytes_eq : Bytes → Bytes → Bool
bytes_eq [] [] = true
bytes_eq (x ∷ xs) (y ∷ ys) = x == y && bytes_eq xs ys
bytes_eq _ _ = false

-- `s.startswith(p)`
unfoldable pub starts_with : Bytes → Bytes → Bool
starts_with [] s = true
starts_with (x ∷ p) [] = false
starts_with (x ∷ p) (y ∷ s) = x == y && starts_with p s

-- `s.find(p)`, with `none` for -1
unfoldable pub find : Bytes → Bytes → Option ℕ
unfolding starts_with
find p [] = if starts_with p [] then some 0 else none
find p (x ∷ s) = if starts_with p (x ∷ s) then some 0 else Option.map suc (find p s)

pub bytes_eq_iff : (a b : Bytes) → (bytes_eq a b ≡ true) ↔ (a ≡ b)
unfolding bytes_eq
bytes_eq_iff (x ∷ a) (y ∷ b) = ground (arith, bytes_eq_iff a b)
bytes_eq_iff _ _ = ground arith

pub bytes_eq_refl : (a : Bytes) → bytes_eq a a ≡ true
bytes_eq_refl a = (bytes_eq_iff a a).1 refl

-- Every item is a byte.
abbrev pub IsBytes : Bytes → Type 0
IsBytes [] = Unit
IsBytes (x ∷ xs) = (x < 256) × IsBytes xs

-- No item of the text is `c`.
abbrev pub Absent : ℕ → Bytes → Type 0
Absent c [] = Unit
Absent c (b ∷ s) = (b ≢ c) × Absent c s

pub Absent-append : (c : ℕ) (s t : Bytes) → Absent c s → Absent c t → Absent c (s ++ t)
Absent-append c [] t hs ht = ht
Absent-append c (b ∷ s) t (hb, hs) ht = (hb, Absent-append c s t hs ht)

pub Absent-split : (c : ℕ) (s t : Bytes) → Absent c (s ++ t) → Absent c s × Absent c t
Absent-split c [] t h = (tt, h)
Absent-split c (b ∷ s) t (hb, h) = let (hs, ht) = Absent-split c s t h in ((hb, hs), ht)

pub starts_with-append : (p s : Bytes) → starts_with p (p ++ s) ≡ true
unfolding starts_with
starts_with-append [] s = refl
starts_with-append (x ∷ p) s = ground (arith, starts_with-append p s)
