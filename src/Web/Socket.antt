-- ===== src/Web/Socket.antt =====
-- A connected socket, as its reader sees it, and `_recv_exact` (app/zmux/ws_server.py).
use native.Mathlib.Numerals.{unary_clauses}
use zabawheels.Prelude.{
  ℕ, zero, suc, ◌-◌, ◌≤◌, ◌<◌, ◌≡◌, ◌≢◌, refl, sym, ap, ◌∙◌, Option, none, some, List, [], ◌∷◌,
  ◌++◌, append-nil, append_assoc, arith, Bytes, length, take, drop, concat, length-append,
  take-append_self, drop-append_self,
}

-- The pieces in which the peer's bytes will come; when they are used up, the peer has closed.
abbrev pub Socket : Type 0
Socket = List Bytes

abbrev pub behind : Bytes → Socket → Socket
behind [] segments = segments
behind (b ∷ bytes) segments = (b ∷ bytes) ∷ segments

-- `sock.recv(limit)`: at most `limit` bytes, of the next piece.
unfoldable pub recv : ℕ → Socket → Bytes × Socket
recv limit [] = ([], [])
recv limit (s ∷ segments) = (take limit s, behind (drop limit s) segments)

-- How the loop of `_recv_exact` ends: with the bytes and what is left, with the `ConnectionError`, or,
-- where its rounds are used up, not at all.
pub data Received : Type 0 where
  got : Bytes → Socket → Received
  hung_up : Received
  unfinished : Received

-- `while len(data) < length`, where `missing` is `length - len(data)`. Each round brings a byte, so as
-- many rounds as there are missing bytes are enough.
unfoldable pub recv_loop : ℕ → ℕ → Bytes → Socket → Received
unfolding recv
recv_loop fuel zero received segments = got received segments
recv_loop zero (suc missing) received segments = unfinished
recv_loop (suc fuel) (suc missing) received segments = elim (recv (suc missing) segments).0 [
  | [] ↦ hung_up
  | b ∷ chunk ↦
      recv_loop fuel (suc missing - length (b ∷ chunk)) (received ++ b ∷ chunk)
        (recv (suc missing) segments).1
]

-- The loop, with a round for each byte.
abbrev pub recv_all : ℕ → Socket → Received
recv_all length_wanted segments = recv_loop length_wanted length_wanted [] segments

-- What a caller gets, where an exception is `none`.
abbrev pub heard : Received → Option (Bytes × Socket)
heard (got bytes segments) = some (bytes, segments)
heard hung_up = none
heard unfinished = none

-- `_recv_exact`
unfoldable pub recv_exact : ℕ → Socket → Option (Bytes × Socket)
recv_exact length_wanted segments = heard (recv_all length_wanted segments)

-- A piece has a byte: `recv` answers with no byte only when the peer has closed.
abbrev pub AllFull : Socket → Type 0
AllFull [] = Unit
AllFull (s ∷ segments) = (s ≢ []) × AllFull segments

take-rest :
    (n : ℕ) (xs ys : Bytes)
    → take n xs ++ take (n - length (take n xs)) (drop n xs ++ ys) ≡ take n (xs ++ ys)
take-rest zero xs ys = refl
take-rest (suc n) [] ys = simp unary_clauses refl
take-rest (suc n) (x ∷ xs) ys = simp unary_clauses (ap (λ zs. x ∷ zs) (take-rest n xs ys))

drop-rest :
    (n : ℕ) (xs ys : Bytes) → drop (n - length (take n xs)) (drop n xs ++ ys) ≡ drop n (xs ++ ys)
drop-rest zero xs ys = refl
drop-rest (suc n) [] ys = simp unary_clauses refl
drop-rest (suc n) (x ∷ xs) ys = simp unary_clauses (drop-rest n xs ys)

concat-behind : (d : Bytes) (segments : Socket) → concat (behind d segments) ≡ d ++ concat segments
concat-behind [] segments = refl
concat-behind (b ∷ d) segments = refl

AllFull-behind : (d : Bytes) (segments : Socket) → AllFull segments → AllFull (behind d segments)
AllFull-behind [] segments h = h
AllFull-behind (b ∷ d) segments h = ((λ e. cc), h)

-- What is still to come, behind bytes that have been read.
length-rest :
    (n : ℕ) (xs ys : Bytes)
    → n ≤ length (xs ++ ys)
    → n - length (take n xs) ≤ length (drop n xs ++ ys)
length-rest zero xs ys h = omega arith
length-rest (suc n) [] ys h = omega (arith, h)
length-rest (suc n) (x ∷ xs) ys h = let rest = length-rest n xs ys (omega arith) in omega arith

rest-lt :
    (n : ℕ) (xs ys : Bytes)
    → length (xs ++ ys) < n
    → length (drop n xs ++ ys) < n - length (take n xs)
rest-lt zero xs ys h = absurd (omega arith)
rest-lt (suc n) [] ys h = omega (arith, h)
rest-lt (suc n) (x ∷ xs) ys h = let rest = rest-lt n xs ys (omega arith) in omega arith

-- A read answers with an item, and `rest` is what it leaves in the socket.
abbrev pub Reads {ℓ} : {A : Type ℓ} → Option (A × Socket) → A → Bytes → Type ℓ
Reads result item rest =
    (later : Socket) × (result ≡ some (item, later)) × AllFull later × (concat later ≡ rest)

pub recv_loop-enough :
    (fuel missing : ℕ) (received : Bytes) (segments : Socket)
    → missing ≤ fuel
    → AllFull segments
    → missing ≤ length (concat segments)
    → Reads
        (heard (recv_loop fuel missing received segments))
        (received ++ take missing (concat segments))
        (drop missing (concat segments))
unfolding recv_loop recv
recv_loop-enough fuel zero received segments le full enough =
    (segments, ap (λ d. some (d, segments)) (sym (append-nil received)), full, refl)
recv_loop-enough zero (suc m) received segments le full enough = absurd (omega arith)
recv_loop-enough (suc fuel) (suc m) received [] le full enough = absurd (omega arith)
recv_loop-enough (suc fuel) (suc m) received ([] ∷ segments) le (some_byte, full) enough =
    absurd (some_byte refl)
recv_loop-enough (suc fuel) (suc m) received ((b ∷ s) ∷ segments) le (some_byte, full) enough =
    let missing = suc m - length (b ∷ take m s) in
    let more = concat-behind (drop m s) segments in
    let fewer : missing ≤ length (concat (behind (drop m s) segments)) =
      rw more (length-rest (suc m) (b ∷ s) (concat segments) enough) in
    let (later, read, full', left) =
      recv_loop-enough fuel missing (received ++ b ∷ take m s) (behind (drop m s) segments)
        (omega arith) (AllFull-behind (drop m s) segments full) fewer in
    (
      later,
      read
          ∙ ap (λ d. some (d, later))
              (append_assoc received (b ∷ take m s)
                  (take missing (concat (behind (drop m s) segments)))
                ∙ ap (λ d. received ++ d)
                    (ap (λ d. b ∷ take m s ++ take missing d) more
                      ∙ take-rest (suc m) (b ∷ s) (concat segments))),
      full',
      left ∙ ap (drop missing) more ∙ drop-rest (suc m) (b ∷ s) (concat segments),
    )

-- Bytes that the peer has sent are read whole, however they were cut into pieces, and what they leave
-- in the socket is the bytes behind them.
pub recv_exact-enough :
    (bytes rest : Bytes) (segments : Socket)
    → AllFull segments
    → concat segments ≡ bytes ++ rest
    → Reads (recv_exact (length bytes) segments) bytes rest
unfolding recv_exact
recv_exact-enough bytes rest segments full e =
    let enough : length bytes ≤ length (concat segments) =
      rw (e, length-append bytes rest) (omega arith) in
    let (later, read, full', left) =
      recv_loop-enough (length bytes) (length bytes) [] segments (omega arith) full enough in
    (
      later,
      read ∙ ap (λ d. some (d, later)) (ap (take (length bytes)) e ∙ take-append_self bytes rest),
      full',
      left ∙ ap (drop (length bytes)) e ∙ drop-append_self bytes rest,
    )

recv_loop-short :
    (fuel missing : ℕ) (received : Bytes) (segments : Socket)
    → AllFull segments
    → missing ≤ fuel
    → length (concat segments) < missing
    → recv_loop fuel missing received segments ≡ hung_up
unfolding recv_loop recv
recv_loop-short fuel zero received segments full le short = absurd (omega arith)
recv_loop-short zero (suc m) received segments full le short = absurd (omega arith)
recv_loop-short (suc fuel) (suc m) received [] full le short = refl
recv_loop-short (suc fuel) (suc m) received ([] ∷ segments) (some_byte, full) le short =
    absurd (some_byte refl)
recv_loop-short (suc fuel) (suc m) received ((b ∷ s) ∷ segments) (some_byte, full) le short =
    recv_loop-short fuel (suc m - length (b ∷ take m s)) (received ++ b ∷ take m s)
      (behind (drop m s) segments) (AllFull-behind (drop m s) segments full) (omega arith)
      (rw (concat-behind (drop m s) segments) (rest-lt (suc m) (b ∷ s) (concat segments) short))

-- A read of more bytes than the peer sends before it closes ends, within its rounds, in a
-- `ConnectionError`, and never in a shorter answer.
pub recv_exact-short :
    (n : ℕ) (segments : Socket)
    → AllFull segments
    → length (concat segments) < n
    → (recv_all n segments ≡ hung_up) × (recv_exact n segments ≡ none)
unfolding recv_exact
recv_exact-short n segments full short =
    let stopped = recv_loop-short n n [] segments full (omega arith) short in
    (stopped, ap heard stopped)
