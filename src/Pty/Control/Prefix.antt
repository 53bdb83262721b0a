-- ===== src/Pty/Control/Prefix.antt =====
-- Where a marker, or the beginning of one, stands in a text: `find` and `_possible_control_prefix`.
use zabawheels.Prelude.{
  ℕ, zero, suc, ◌+◌, ◌-◌, ◌≤◌, ◌<◌, min, ◌≡◌, refl, true, false, some, [], ◌∷◌, arith, Bytes, find,
  bytes_eq, starts_with, length, take, ==_iff, leb, Bool-cases, ◌⊎◌, inl, inr,
}
use zabawheels.Pty.Control.{longest_from, possible_control_prefix}

pub starts_with-length : (p s : Bytes) → starts_with p s ≡ true → length p ≤ length s
unfolding starts_with
starts_with-length [] s h = omega arith
starts_with-length (x ∷ p) [] h = cc
starts_with-length (x ∷ p) (y ∷ s) h = ground (arith, starts_with-length p s)

pub find-cons :
    (m : Bytes) (b : ℕ) (s : Bytes) (i : ℕ)
    → find m (b ∷ s) ≡ some i
    → ((starts_with m (b ∷ s) ≡ true) × (i ≡ 0))
      ⊎ ((starts_with m (b ∷ s) ≡ false) × (j : ℕ) × (find m s ≡ some j) × (i ≡ suc j))
unfolding find
find-cons m b s i h = ground arith

pub find-length : (m s : Bytes) (i : ℕ) → find m s ≡ some i → i + length m ≤ length s
unfolding find
find-length m [] i h = ground (arith, starts_with-length m [])
find-length m (b ∷ s) i h = elim (find-cons m b s i h) [
  | inl (here, e) ↦ omega (arith, starts_with-length m (b ∷ s) here, e)
  | inr (_, j, there, e) ↦ omega (arith, find-length m s j there, e)
]

-- A text longer than the marker is no beginning of it.
pub not_starts_with_longer : (s m : Bytes) → length m < length s → starts_with s m ≡ false
not_starts_with_longer s m h = elim (Bool-cases (starts_with s m)) [
  | inl e ↦ absurd (omega (arith, starts_with-length s m e))
  | inr e ↦ e
]

-- The loop of `_possible_control_prefix` answers at most its limit, and looks only at the end.
longest_from-le : (m : Bytes) (n : ℕ) (s : Bytes) → longest_from m n s ≤ n
unfolding longest_from
longest_from-le m zero s = omega arith
longest_from-le m (suc n) s = ground (arith, longest_from-le m n s)

longest_from-cons :
    (m : Bytes) (n b : ℕ) (s : Bytes) → n ≤ length s → longest_from m n (b ∷ s) ≡ longest_from m n s
unfolding longest_from
longest_from-cons m zero b s h = refl
longest_from-cons m (suc n) b s h =
    let size : suc (length s) - suc n ≡ suc (length s - suc n) = omega arith in
    rw size (rw (longest_from-cons m n b s (omega arith)))

-- A text is a beginning of another exactly when it is what its length cuts off.
starts_with-take : (s m : Bytes) → starts_with s m ≡ bytes_eq s (take (length s) m)
unfolding starts_with bytes_eq
starts_with-take [] m = refl
starts_with-take (x ∷ s) [] = refl
starts_with-take (x ∷ s) (y ∷ m) = rw (starts_with-take s m)

-- Beginnings of one length are equal.
starts_with_comm : (s m : Bytes) → length s ≡ length m → starts_with s m ≡ starts_with m s
unfolding starts_with
starts_with_comm [] [] e = refl
starts_with_comm [] (y ∷ m) e = absurd (omega arith)
starts_with_comm (x ∷ s) [] e = absurd (omega arith)
starts_with_comm (x ∷ s) (y ∷ m) e =
    ground (arith, starts_with_comm s m (omega arith), ==_iff x y, ==_iff y x)

pub possible_control_prefix-whole :
    (m : Bytes) (b : ℕ) (s : Bytes)
    → starts_with (b ∷ s) m ≡ true
    → length (b ∷ s) < length m
    → possible_control_prefix m (b ∷ s) ≡ length (b ∷ s)
unfolding possible_control_prefix longest_from
possible_control_prefix-whole m b s h short =
    let limit : min (length (b ∷ s)) (length m - 1) ≡ suc (length s) = omega arith in
    let all : suc (length s) - suc (length s) ≡ 0 = omega arith in
    rw (limit, all, ← starts_with-take (b ∷ s) m, h)

pub possible_control_prefix-cons :
    (m : Bytes) (b : ℕ) (s : Bytes)
    → starts_with (b ∷ s) m ≡ false
    → possible_control_prefix m (b ∷ s) ≡ possible_control_prefix m s
unfolding possible_control_prefix
possible_control_prefix-cons m b s h = elim (Bool-cases (leb (length m - 1) (length s))) [
  | inl long ↦
      let limit : min (suc (length s)) (length m - 1) ≡ length m - 1 = ground arith in
      let limit' : min (length s) (length m - 1) ≡ length m - 1 = ground arith in
      rw (limit, limit') (longest_from-cons m (length m - 1) b s (ground arith))
  | inr short ↦
      let limit : min (suc (length s)) (length m - 1) ≡ suc (length s) = ground arith in
      let limit' : min (length s) (length m - 1) ≡ length s = ground arith in
      let all : suc (length s) - suc (length s) ≡ 0 = omega arith in
      rw (limit, limit')
        (unfold longest_from in
          rw (all, ← starts_with-take (b ∷ s) m, h)
            (longest_from-cons m (length s) b s (omega arith)))
]

pub possible_control_prefix-le : (m s : Bytes) → possible_control_prefix m s ≤ length s
unfolding possible_control_prefix
possible_control_prefix-le m s = omega (arith, longest_from-le m (min (length s) (length m - 1)) s)

-- A beginning of the marker that is not the marker is shorter.
pub starts_with-length_lt :
    (s m : Bytes) → starts_with s m ≡ true → starts_with m s ≡ false → length s < length m
starts_with-length_lt s m start miss = elim (Bool-cases (leb (length m) (length s))) [
  | inl long ↦
      let same : length s ≡ length m = ground (arith, starts_with-length s m start) in
      cc (starts_with_comm s m same)
  | inr short ↦ ground arith
]
