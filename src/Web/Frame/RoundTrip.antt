-- ===== src/Web/Frame/RoundTrip.antt =====
-- That `_read_frame` reads what a peer sends.
use Prim.Native.Nat.{bit_and, bit_or}
use zabawheels.Prelude.{
  ℕ, ◌<◌, ◌^◌, ◌≡◌, refl, ap, ◌∙◌, subst, Bool, true, false, not, Option, some, [], ◌∷◌, ◌++◌,
  append_assoc, arith, Bytes, IsBytes, length, concat, ltb, lt→ltb, leb, ◌==◌, if◌then◌else◌,
  Bool-cases, inl, inr,
}
use zabawheels.Web.Socket.{Socket, AllFull, Reads, recv_exact, recv_exact-enough}
use zabawheels.Web.Frame.{
  to_bytes, from_bytes, length_limit, send_frame, and_then, read_length, read_payload, read_frame,
}
use zabawheels.Web.Frame.Bits.{
  masked_from, opcode_bits, seven_bits, masked_bits, from_bytes-to_bytes, length-to_bytes,
  unmask_from-masked_from, length-masked_from,
}

-- The seven bits of the length in the second byte, and the bytes of the length behind it.
unfoldable pub seven : ℕ → ℕ
seven n = if ltb n 126 then n else if leb n 65535 then 126 else 127

unfoldable pub extended : ℕ → Bytes
extended n = if ltb n 126 then [] else if leb n 65535 then to_bytes 2 n else to_bytes 8 n

-- A frame as a client sends it (RFC 6455, 5.2): in one fragment, and masked.
unfoldable pub client_frame : Bytes → ℕ → Bytes → Bytes
client_frame masking_key opcode payload =
    bit_or 0x80 opcode ∷ bit_or 0x80 (seven (length payload)) ∷ extended (length payload)
    ++ (masking_key ++ masked_from 0 masking_key payload)

-- A frame as a server sends it: not masked.
unfoldable pub server_frame : ℕ → Bytes → Bytes
server_frame opcode payload =
    bit_or 0x80 opcode ∷ seven (length payload) ∷ extended (length payload) ++ payload

and_then-Reads {ℓ} :
    {A : Type ℓ} (r : Option (Bytes × Socket)) (next : Bytes → Socket → Option (A × Socket))
    {bytes rest rest' : Bytes} {a : A}
    → Reads r bytes rest
    → ((later : Socket) → AllFull later → concat later ≡ rest → Reads (next bytes later) a rest')
    → Reads (and_then r next) a rest'
and_then-Reads r next (later, e, full, c) k = rw e (k later full c)

-- A read of as many bytes as are wanted.
recv_exact-Reads :
    (n : ℕ) (bytes rest : Bytes) (segments : Socket)
    → length bytes ≡ n
    → AllFull segments
    → concat segments ≡ bytes ++ rest
    → Reads (recv_exact n segments) bytes rest
recv_exact-Reads n bytes rest segments size full e =
    subst (λ n. Reads (recv_exact n segments) bytes rest) size
      (recv_exact-enough bytes rest segments full e)

-- A length of `width` bytes.
wide-Reads :
    (width n : ℕ) (rest : Bytes) (segments : Socket)
    → n < 256 ^ width
    → AllFull segments
    → concat segments ≡ to_bytes width n ++ rest
    → Reads
        (and_then
          (recv_exact width segments)
          (λ len_bytes later. some (from_bytes 0 len_bytes, later)))
        n
        rest
wide-Reads width n rest segments small full e =
    and_then-Reads (recv_exact width segments) _
      (recv_exact-Reads width (to_bytes width n) rest segments (length-to_bytes width n) full e)
      (λ later full' left.
        (later, ap (λ v. some (v, later)) (from_bytes-to_bytes width n small), full', left))

read_length-Reads :
    (n : ℕ) (rest : Bytes) (segments : Socket)
    → n < length_limit
    → AllFull segments
    → concat segments ≡ extended n ++ rest
    → Reads (read_length (seven n) segments) n rest
unfolding read_length seven extended
read_length-Reads n rest segments small full e = elim (Bool-cases (ltb n 126)) [
  | inl short ↦
      let a : (n == 126) ≡ false = ground arith in
      let b : (n == 127) ≡ false = ground arith in
      let o : extended n ≡ [] = rw short refl in
      rw (short, a, b) (segments, refl, full, e ∙ ap (λ o. o ++ rest) o)
  | inr long ↦ elim (Bool-cases (leb n 65535)) [
    | inl middle ↦
        let o : extended n ≡ to_bytes 2 n = rw (long, middle) refl in
        rw (long, middle)
          (wide-Reads 2 n rest segments (ground arith) full (e ∙ ap (λ o. o ++ rest) o))
    | inr wide ↦
        let o : extended n ≡ to_bytes 8 n = rw (long, wide) refl in
        rw (long, wide)
          (wide-Reads 8 n rest segments (omega arith) full (e ∙ ap (λ o. o ++ rest) o))
  ]
]

seven-lt : (n : ℕ) → seven n < 128
unfolding seven
seven-lt n = ground arith

-- The payload behind the length: masked or not.
read_payload-plain :
    (payload rest : Bytes) (segments : Socket)
    → AllFull segments
    → concat segments ≡ payload ++ rest
    → Reads (read_payload false (length payload) segments) payload rest
unfolding read_payload
read_payload-plain payload rest segments full e = recv_exact-enough payload rest segments full e

read_payload-masked :
    (masking_key payload rest : Bytes) (segments : Socket)
    → length masking_key ≡ 4
    → IsBytes masking_key
    → IsBytes payload
    → AllFull segments
    → concat segments ≡ (masking_key ++ masked_from 0 masking_key payload) ++ rest
    → Reads (read_payload true (length payload) segments) payload rest
unfolding read_payload
read_payload-masked masking_key payload rest segments four hk hp full e =
    let masked = masked_from 0 masking_key payload in
    and_then-Reads (recv_exact 4 segments) _
      (recv_exact-Reads 4 masking_key (masked ++ rest) segments four full
        (e ∙ append_assoc masking_key masked rest))
      (λ later full1 left1.
        and_then-Reads (recv_exact (length payload) later) _
          (recv_exact-Reads (length payload) masked rest later
            (length-masked_from 0 masking_key payload) full1 left1)
          (λ last full2 left2. (
            last,
            ap (λ v. some (v, last)) (unmask_from-masked_from 0 masking_key payload hk hp),
            full2,
            left2,
          )))

-- A frame whose second byte is `second`, from its parts.
read_frame-parts :
    (opcode second : ℕ) (masked : Bool) (body payload rest : Bytes) (segments : Socket)
    → opcode < 16
    → bit_and second 0x7f ≡ seven (length payload)
    → not (bit_and second 0x80 == 0) ≡ masked
    → length payload < length_limit
    → ((later : Socket)
        → AllFull later
        → concat later ≡ body ++ rest
        → Reads (read_payload masked (length payload) later) payload rest)
    → AllFull segments
    → concat segments ≡ (bit_or 0x80 opcode ∷ second ∷ extended (length payload) ++ body) ++ rest
    → Reads (read_frame segments) (opcode, payload) rest
unfolding read_frame
read_frame-parts opcode second masked body payload rest segments ho hs hm small reads full e =
    let n = length payload in
    let behind_second = (extended n ++ body) ++ rest in
    and_then-Reads (recv_exact 1 segments) _
      (recv_exact-enough (bit_or 0x80 opcode ∷ []) (second ∷ behind_second) segments full e)
      (λ later full1 left1.
        and_then-Reads (recv_exact 1 later) _
          (recv_exact-enough (second ∷ []) behind_second later full1 left1)
          (λ last full2 left2.
            let (l, read, full3, left3) =
              read_length-Reads n (body ++ rest) last small full2
                (left2 ∙ append_assoc (extended n) body rest) in
            rw (opcode_bits opcode ho, hs, hm, read)
              (and_then-Reads (read_payload masked n l) _ (reads l full3 left3)
                (λ end f c. (end, refl, f, c)))))

-- Frames from a client are read: a masked frame, of any opcode and of any payload that the protocol
-- can send, comes back as its opcode and its payload, however its bytes were cut into pieces, and the
-- bytes behind it stay for the next frame.
pub read_frame-client_frame :
    (opcode : ℕ) (masking_key payload rest : Bytes) (segments : Socket)
    → opcode < 16
    → length masking_key ≡ 4
    → IsBytes masking_key
    → IsBytes payload
    → length payload < length_limit
    → AllFull segments
    → concat segments ≡ client_frame masking_key opcode payload ++ rest
    → Reads (read_frame segments) (opcode, payload) rest
unfolding client_frame
read_frame-client_frame opcode masking_key payload rest segments ho four hk hp small full e =
    let (bits, flag) = masked_bits (seven (length payload)) (seven-lt (length payload)) in
    read_frame-parts opcode (bit_or 0x80 (seven (length payload))) true
      (masking_key ++ masked_from 0 masking_key payload) payload rest segments ho bits
      (rw flag refl) small
      (λ later f c. read_payload-masked masking_key payload rest later four hk hp f c) full e

pub send_frame-server_frame :
    (opcode : ℕ) (payload : Bytes)
    → length payload < length_limit
    → send_frame opcode payload ≡ some (server_frame opcode payload)
unfolding send_frame server_frame seven extended
send_frame-server_frame opcode payload small = elim (Bool-cases (ltb (length payload) 126)) [
  | inl short ↦ rw short refl
  | inr long ↦ elim (Bool-cases (leb (length payload) 65535)) [
    | inl middle ↦ rw (long, middle) refl
    | inr wide ↦ rw (long, wide, lt→ltb _ _ small) refl
  ]
]

-- What the server sends is a frame of the protocol, for every payload shorter than 2^64 bytes, and the
-- reader gets the opcode and the payload back from it, however it was cut into pieces.
pub read_frame-send_frame :
    (opcode : ℕ) (payload rest : Bytes) (segments : Socket)
    → opcode < 16
    → length payload < length_limit
    → AllFull segments
    → concat segments ≡ server_frame opcode payload ++ rest
    → (send_frame opcode payload ≡ some (server_frame opcode payload))
      × Reads (read_frame segments) (opcode, payload) rest
unfolding server_frame
read_frame-send_frame opcode payload rest segments ho small full e =
    let (bits, flag) = seven_bits (seven (length payload)) (seven-lt (length payload)) in
    (
      send_frame-server_frame opcode payload small,
      read_frame-parts opcode (seven (length payload)) false payload payload rest segments ho bits
          (rw flag refl) small (λ later f c. read_payload-plain payload rest later f c) full e,
    )
