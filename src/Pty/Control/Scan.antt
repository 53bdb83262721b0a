-- ===== src/Pty/Control/Scan.antt =====
-- A reference definition of the control filter, one byte at a time, and its equality with the loop.
use zabawheels.Prelude.{
  ℕ, zero, suc, ◌+◌, ◌-◌, ◌≤◌, ◌<◌, ◌≡◌, refl, ap, ◌∙◌, false, none, some, [], ◌∷◌, ◌++◌,
  append-nil, append_assoc, arith, Bytes, find, starts_with, length, take, drop, take_last,
  length-drop, drop-length, if◌then◌else◌, Bool-cases, Option-cases, inl, inr, take-length,
}
use Prim.Native.Nat.add
use native.Mathlib.Nat.{add-zero}
use zabawheels.Pty.Control.{
  Filtered, possible_control_prefix, keep_prefix, filter_loop, filter_pty_controls,
}
use zabawheels.Pty.Control.Prefix.{
  find-cons, find-length, not_starts_with_longer, possible_control_prefix-whole,
  possible_control_prefix-cons, possible_control_prefix-le, starts_with-length_lt,
}

abbrev pub emit_byte : ℕ → Filtered → Filtered
emit_byte b r = record r { out = b ∷ r.out }

abbrev pub count_control : Filtered → Filtered
count_control r = record r { controls = r.controls + 1 }

-- The first number is how many bytes of a marker are still to be skipped. A position where the
-- marker stands is skipped and counted, one where the rest may become a marker is kept, and any
-- other byte is visible.
unfoldable pub scan : Bytes → ℕ → Bytes → Filtered
scan m k [] = record { out = []; controls = 0; control_tail = [] }
scan m (suc k) (b ∷ s) = scan m k s
scan m zero (b ∷ s) =
    let found = count_control (scan m (length m - 1) s) in
    let plain = emit_byte b (scan m zero s) in
    if starts_with m (b ∷ s)
    then found
    else if starts_with (b ∷ s) m
    then record { out = []; controls = 0; control_tail = b ∷ s }
    else plain

scan-drop : (m : Bytes) (k : ℕ) (s : Bytes) → scan m k s ≡ scan m 0 (drop k s)
unfolding scan
scan-drop m zero s = refl
scan-drop m (suc k) [] = refl
scan-drop m (suc k) (b ∷ s) = scan-drop m k s

-- The bytes before the first marker are visible.
abbrev after_marker : Bytes → Filtered → Filtered
after_marker front r = record {
  out = front ++ r.out;
  controls = r.controls + 1;
  control_tail = r.control_tail;
}

scan-find :
    (x : ℕ) (p s : Bytes) (i k : ℕ)
    → find (x ∷ p) s ≡ some i
    → k ≡ i + length (x ∷ p)
    → scan (x ∷ p) 0 s ≡ after_marker (take i s) (scan (x ∷ p) 0 (drop k s))
unfolding scan
scan-find x p s i zero h e = absurd (omega arith)
scan-find x p [] i (suc k) h e = absurd (omega (arith, find-length (x ∷ p) [] i h))
scan-find x p (b ∷ s) i (suc k) h e = elim (find-cons (x ∷ p) b s i h) [
  | inl (here, at_zero) ↦
      let size : length (x ∷ p) - 1 ≡ k = omega arith in
      rw (here, at_zero, size) (ap count_control (scan-drop (x ∷ p) k s))
  | inr (miss, j, there, at_suc) ↦
      let fits = find-length (x ∷ p) s j there in
      rw (miss, not_starts_with_longer (b ∷ s) (x ∷ p) (omega arith), at_suc)
        (ap (emit_byte b) (scan-find x p s j k there (omega arith)))
]

-- With no marker in it, a text splits where the longest beginning of a marker at its end starts.
abbrev kept : ℕ → Bytes → Filtered
kept k s = record { out = take (length s - k) s; controls = 0; control_tail = take_last k s }

scan-find-none : (m s : Bytes) → find m s ≡ none → scan m 0 s ≡ kept (possible_control_prefix m s) s
unfolding scan find
scan-find-none m [] h =
    let empty : possible_control_prefix m [] ≡ 0 = omega (arith, possible_control_prefix-le m []) in
    rw empty
scan-find-none m (b ∷ s) h =
    let miss : starts_with m (b ∷ s) ≡ false = ground arith in
    let later : find m s ≡ none = ground arith in
    elim (Bool-cases (starts_with (b ∷ s) m)) [
      | inl start ↦
          let short : length (b ∷ s) < length m = starts_with-length_lt (b ∷ s) m start miss in
          let all : suc (length s) - suc (length s) ≡ 0 = omega arith in
          rw (miss, start, possible_control_prefix-whole m b s start short, all)
      | inr plain ↦
          let fits = possible_control_prefix-le m s in
          let cut : suc (length s) - possible_control_prefix m s
              ≡ suc (length s - possible_control_prefix m s) =
            omega arith in
          rw (miss, plain, possible_control_prefix-cons m b s plain, cut)
            (ap (emit_byte b) (scan-find-none m s later))
    ]

-- What the loop has so far, in front of what the rest gives.
abbrev pub onto : Bytes → ℕ → Filtered → Filtered
onto out controls r = record {
  out = out ++ r.out;
  controls = controls + r.controls;
  control_tail = r.control_tail;
}

keep_prefix-kept :
    (m s out : Bytes) (n : ℕ)
    → keep_prefix m s out n ≡ onto out n (kept (possible_control_prefix m s) s)
unfolding keep_prefix
keep_prefix-kept m s out n =
    elim (possible_control_prefix m s)
      as (λ k.
        elim k as (λ _. Filtered) [
          | zero ↦ record { out = out ++ s; controls = n; control_tail = [] }
          | suc k ↦ record {
            out = out ++ take (length s - suc k) s;
            controls = n;
            control_tail = take_last (suc k) s;
          }
        ]
        ≡ onto out n (kept k s)) [
          | zero ↦
              let whole : length s - 0 ≡ length s = omega arith in
              rw (add-zero, whole, take-length, drop-length)
          | suc k ↦ rw add-zero
        ]

filter_loop-scan :
    (x : ℕ) (p : Bytes) (fuel : ℕ) (s out : Bytes) (n : ℕ)
    → length s ≤ fuel
    → filter_loop fuel (x ∷ p) s out n ≡ onto out n (scan (x ∷ p) 0 s)
unfolding filter_loop
filter_loop-scan x p fuel [] out n h = unfold scan in rw (append-nil, add-zero)
filter_loop-scan x p zero (b ∷ s) out n h = absurd (omega arith)
filter_loop-scan x p (suc fuel) (b ∷ s) out n h = elim (Option-cases (find (x ∷ p) (b ∷ s))) [
  | inl miss ↦
      rw (miss, filter_loop, scan-find-none (x ∷ p) (b ∷ s) miss)
        (keep_prefix-kept (x ∷ p) (b ∷ s) out n)
  | inr (i, found) ↦
      let m = x ∷ p in
      let rest = drop (i + length m) (b ∷ s) in
      let size = length-drop (i + length m) (b ∷ s) in
      let sum : n + 1 + (scan m 0 rest).controls ≡ n + ((scan m 0 rest).controls + 1) =
        omega arith in
      rw (found, filter_loop, scan-find x p (b ∷ s) i (i + length m) found refl)
        (filter_loop-scan x p fuel rest (out ++ take i (b ∷ s)) (n + 1) (omega arith)
          ∙ rw (append_assoc, sum))
]

-- The code and the reference agree.
pub filter_pty_controls-scan :
    (x : ℕ) (p tail bytes : Bytes)
    → filter_pty_controls (x ∷ p) tail bytes ≡ scan (x ∷ p) 0 (tail ++ bytes)
unfolding filter_pty_controls
filter_pty_controls-scan x p tail bytes =
    let s = tail ++ bytes in filter_loop-scan x p (length s) s [] 0 (omega arith) ∙ rw add.zero
