-- ===== src/Prelude/Xor.antt =====
-- Tables of a test on small numbers, and that masking a byte twice gives it back.
use Prim.Native.Nat.{bit_xor}
use zabawheels.Prelude.{
  ℕ, zero, suc, ◌≤◌, ◌<◌, ◌≡◌, refl, ap, ◌∙◌, Bool-cases, inl, inr, Bool, true, ◌&&◌, arith, ◌==◌,
  ==_iff, ltb, ltb→lt,
}

-- Whether a test comes out true from 0 up to the bound.
unfoldable pub holds_up_to : (ℕ → Bool) → ℕ → Bool
holds_up_to test zero = test zero
holds_up_to test (suc bound) = holds_up_to test bound && test (suc bound)

pub from_table :
    (test : ℕ → Bool) (bound : ℕ) {v : ℕ}
    → holds_up_to test bound ≡ true
    → v ≤ bound
    → test v ≡ true
unfolding holds_up_to
from_table test zero {v} table small = let e : v ≡ 0 = omega arith in ap test e ∙ table
from_table test (suc bound) {v} table small = elim (Bool-cases (v == suc bound)) [
  | inl last ↦
      let e : v ≡ suc bound = (==_iff v (suc bound)).0 last in ap test e ∙ ground (arith, table)
  | inr earlier ↦ from_table test bound (ground (arith, table)) (ground (arith, earlier))
]

xor_table : holds_up_to (λ x. holds_up_to (λ k. bit_xor (bit_xor x k) k == x) 255) 255 ≡ true
unfolding holds_up_to
xor_table = refl

pub bit_xor_twice : (x k : ℕ) → x < 256 → k < 256 → bit_xor (bit_xor x k) k ≡ x
bit_xor_twice x k hx hk =
    (==_iff _ x).0 (from_table _ 255 (from_table _ 255 xor_table (omega arith)) (omega arith))

byte_table : holds_up_to (λ x. holds_up_to (λ k. ltb (bit_xor x k) 256) 255) 255 ≡ true
unfolding holds_up_to
byte_table = refl

pub bit_xor_lt : (x k : ℕ) → x < 256 → k < 256 → bit_xor x k < 256
bit_xor_lt x k hx hk =
    ltb→lt _ _ (from_table _ 255 (from_table _ 255 byte_table (omega arith)) (omega arith))
