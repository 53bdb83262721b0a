-- ===== src/Web/Frame.antt =====
-- Frames of the websocket protocol: `_send_frame` and `_read_frame` (app/zmux/ws_server.py).
pub mod Bits
pub mod RoundTrip
use Prim.Native.Nat.{bit_and, bit_or, bit_xor}
use zabawheels.Prelude.{
  ℕ, zero, suc, ◌+◌, ◌*◌, ◌/◌, ◌%◌, Bool, true, false, not, Option, none, some, [], ◌∷◌, ◌++◌,
  Bytes, length, get_or, ltb, leb, ◌==◌, if◌then◌else◌,
}
use zabawheels.Web.Socket.{Socket, recv_exact}

-- `n.to_bytes(width, "big")`, where n has that many bytes.
unfoldable pub to_bytes : ℕ → ℕ → Bytes
to_bytes zero n = []
to_bytes (suc width) n = to_bytes width (n / 256) ++ (n % 256) ∷ []

-- `int.from_bytes(bytes, "big")`, behind digits that stand for `high`.
unfoldable pub from_bytes : ℕ → Bytes → ℕ
from_bytes high [] = high
from_bytes high (b ∷ bytes) = from_bytes (high * 256 + b) bytes

-- The least length that eight bytes do not hold, where `to_bytes` raises.
abbrev pub length_limit : ℕ
length_limit = 18446744073709551616

-- The bytes that `_send_frame` hands to `sendall`; `none` is the `OverflowError`.
unfoldable pub send_frame : ℕ → Bytes → Option Bytes
send_frame opcode payload =
    let payload_len = length payload in
    if ltb payload_len 126
    then some (bit_or 0x80 opcode ∷ payload_len ∷ payload)
    else if leb payload_len 65535
    then some (bit_or 0x80 opcode ∷ 126 ∷ to_bytes 2 payload_len ++ payload)
    else if ltb payload_len length_limit
    then some (bit_or 0x80 opcode ∷ 127 ∷ to_bytes 8 payload_len ++ payload)
    else none

-- `bytes(b ^ masking_key[i % 4] for i, b in enumerate(payload))`, from index `i` on.
unfoldable pub unmask_from : ℕ → Bytes → Bytes → Bytes
unmask_from i masking_key [] = []
unmask_from i masking_key (b ∷ payload) =
    bit_xor b (get_or masking_key (i % 4) 0) ∷ unmask_from (i + 1) masking_key payload

-- A read from a socket, and what is done with its bytes; a `ConnectionError` ends the chain.
abbrev pub and_then {ℓ} :
    {A : Type ℓ} → Option (Bytes × Socket) → (Bytes → Socket → Option A) → Option A
and_then none next = none
and_then (some (bytes, segments)) next = next bytes segments

-- `payload_len`, from its seven bits or the bytes behind them.
unfoldable pub read_length : ℕ → Socket → Option (ℕ × Socket)
read_length seven segments =
    if seven == 126
    then and_then (recv_exact 2 segments) (λ len_bytes later. some (from_bytes 0 len_bytes, later))
    else if seven == 127
    then and_then (recv_exact 8 segments) (λ len_bytes later. some (from_bytes 0 len_bytes, later))
    else some (seven, segments)

-- The masking key has four bytes, so it is there exactly when the frame is masked.
unfoldable pub read_payload : Bool → ℕ → Socket → Option (Bytes × Socket)
read_payload false payload_len segments = recv_exact payload_len segments
read_payload true payload_len segments = and_then (recv_exact 4 segments) (λ masking_key later.
    and_then (recv_exact payload_len later)
      (λ payload last. some (unmask_from 0 masking_key payload, last)))

abbrev pub read_rest : ℕ → Bool → Option (ℕ × Socket) → Option ((ℕ × Bytes) × Socket)
read_rest opcode masked none = none
read_rest opcode masked (some (payload_len, segments)) =
    and_then (read_payload masked payload_len segments)
      (λ payload later. some ((opcode, payload), later))

-- `_read_frame`: the opcode and the payload. The FIN bit is read and not used.
unfoldable pub read_frame : Socket → Option ((ℕ × Bytes) × Socket)
read_frame segments = and_then (recv_exact 1 segments) (λ first later.
    and_then (recv_exact 1 later) (λ second last.
      let second_byte = get_or second 0 0 in
      read_rest (bit_and (get_or first 0 0) 0x0f) (not (bit_and second_byte 0x80 == 0))
        (read_length (bit_and second_byte 0x7f) last)))
