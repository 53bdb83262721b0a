-- ===== src/Web/Frame/Bits.antt =====
-- The bits of a frame's first two bytes, the masking of bytes, and numbers in big-endian bytes.
use Prim.Native.Nat.{bit_and, bit_or, bit_xor}
use zabawheels.Prelude.{
  ℕ, zero, suc, ◌+◌, ◌*◌, ◌/◌, ◌%◌, ◌^◌, ◌<◌, ◌≡◌, refl, ap₂, ◌∙◌, get_or, IsBytes, true, ◌&&◌, [],
  ◌∷◌, ◌++◌, Bytes, arith, ◌==◌, ==_iff, length, length-append,
}
use zabawheels.Prelude.Xor.{holds_up_to, from_table, bit_xor_twice}
use zabawheels.Web.Frame.{to_bytes, from_bytes, unmask_from}

opcode_table : holds_up_to (λ x. bit_and (bit_or 0x80 x) 0x0f == x) 15 ≡ true
unfolding holds_up_to
opcode_table = refl

pub opcode_bits : (x : ℕ) → x < 16 → bit_and (bit_or 0x80 x) 0x0f ≡ x
opcode_bits x h = (==_iff _ x).0 (from_table _ 15 opcode_table (omega arith))

seven_table : holds_up_to (λ x. (bit_and x 0x7f == x) && (bit_and x 0x80 == 0)) 127 ≡ true
unfolding holds_up_to
seven_table = refl

masked_table :
    holds_up_to
      (λ x. (bit_and (bit_or 0x80 x) 0x7f == x) && (bit_and (bit_or 0x80 x) 0x80 == 128))
      127
    ≡ true
unfolding holds_up_to
masked_table = refl

pub seven_bits : (x : ℕ) → x < 128 → (bit_and x 0x7f ≡ x) × (bit_and x 0x80 ≡ 0)
seven_bits x h =
    let both = from_table _ 127 {v = x} seven_table (omega arith) in
    (ground (arith, both), ground (arith, both))

pub masked_bits :
    (x : ℕ) → x < 128 → (bit_and (bit_or 0x80 x) 0x7f ≡ x) × (bit_and (bit_or 0x80 x) 0x80 ≡ 128)
masked_bits x h =
    let both = from_table _ 127 {v = x} masked_table (omega arith) in
    (ground (arith, both), ground (arith, both))

from_bytes-append :
    (high : ℕ) (bytes : Bytes) (b : ℕ)
    → from_bytes high (bytes ++ b ∷ []) ≡ from_bytes high bytes * 256 + b
unfolding from_bytes
from_bytes-append high [] b = refl
from_bytes-append high (x ∷ bytes) b = from_bytes-append (high * 256 + x) bytes b

pub from_bytes-to_bytes : (width n : ℕ) → n < 256 ^ width → from_bytes 0 (to_bytes width n) ≡ n
unfolding to_bytes from_bytes
from_bytes-to_bytes zero n h = omega arith
from_bytes-to_bytes (suc width) n h =
    let high = from_bytes-to_bytes width (n / 256) (omega (arith, h)) in
    from_bytes-append 0 (to_bytes width (n / 256)) (n % 256) ∙ omega (arith, high)

pub length-to_bytes : (width n : ℕ) → length (to_bytes width n) ≡ width
unfolding to_bytes
length-to_bytes zero n = refl
length-to_bytes (suc width) n = omega (
  arith,
  length-append (to_bytes width (n / 256)) (n % 256 ∷ []),
  length-to_bytes width (n / 256),
)

pub get_or-IsBytes : (bytes : Bytes) (i : ℕ) → IsBytes bytes → get_or bytes i 0 < 256
get_or-IsBytes [] i h = omega arith
get_or-IsBytes (b ∷ bytes) zero (hb, h) = hb
get_or-IsBytes (b ∷ bytes) (suc i) (hb, h) = get_or-IsBytes bytes i h

-- The masked form of a payload from index `i` on (RFC 6455, 5.3): each octet with the octet of the key
-- at its index modulo 4.
unfoldable pub masked_from : ℕ → Bytes → Bytes → Bytes
masked_from i masking_key [] = []
masked_from i masking_key (b ∷ payload) =
    bit_xor b (get_or masking_key (i % 4) 0) ∷ masked_from (i + 1) masking_key payload

pub unmask_from-masked_from :
    (i : ℕ) (masking_key payload : Bytes)
    → IsBytes masking_key
    → IsBytes payload
    → unmask_from i masking_key (masked_from i masking_key payload) ≡ payload
unfolding unmask_from masked_from
unmask_from-masked_from i masking_key [] hk hp = refl
unmask_from-masked_from i masking_key (b ∷ payload) hk (hb, hp) =
    ap₂ (λ x xs. x ∷ xs)
      (bit_xor_twice b (get_or masking_key (i % 4) 0) hb (get_or-IsBytes masking_key (i % 4) hk))
      (unmask_from-masked_from (i + 1) masking_key payload hk hp)

pub length-masked_from :
    (i : ℕ) (masking_key payload : Bytes)
    → length (masked_from i masking_key payload) ≡ length payload
unfolding masked_from
length-masked_from i masking_key [] = refl
length-masked_from i masking_key (b ∷ payload) =
    omega (arith, length-masked_from (i + 1) masking_key payload)
