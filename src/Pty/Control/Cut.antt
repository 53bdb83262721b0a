-- ===== src/Pty/Control/Cut.antt =====
-- How the control filter of app/zmux/pty_session.py cuts what the shell prints at the markers.
use zabawheels.Prelude.{
  ℕ, zero, suc, ◌+◌, ◌-◌, ◌<◌, ◌≡◌, refl, ap, ◌∙◌, sym, true, false, List, [], ◌∷◌, ◌++◌,
  append-nil, arith, Bytes, starts_with, length, drop, concat, Bool-cases, inl, inr, ==_iff,
}
use zabawheels.Pty.Control.{Filtered}
use zabawheels.Pty.Control.Prefix.{starts_with-length}
use zabawheels.Pty.Control.Scan.{scan}

-- Pieces, each behind a marker.
unfoldable pub after : Bytes → List Bytes → Bytes
after marker [] = []
after marker (piece ∷ pieces) = marker ++ (piece ++ after marker pieces)

-- The marker stands nowhere in the text.
unfoldable pub Free : Bytes → Bytes → Type 0
Free marker [] = Unit
Free marker (b ∷ s) = (starts_with marker (b ∷ s) ≡ false) × Free marker s

unfoldable pub AllFree : Bytes → List Bytes → Type 0
AllFree marker [] = Unit
AllFree marker (piece ∷ pieces) = Free marker piece × AllFree marker pieces

-- The text is cut at its markers: there are as many of them as are counted, the pieces between have none,
-- and they are what is shown and what is retained.
pub record IsCut (marker text : Bytes) (r : Filtered) : Type 0 where
  pub front : Bytes
  pub pieces : List Bytes
  pub joined : text ≡ front ++ after marker pieces
  pub shown : r.out ++ r.control_tail ≡ front ++ concat pieces
  pub counted : r.controls ≡ length pieces
  pub free : Free marker front
  pub all_free : AllFree marker pieces

starts_with-longer : (m s t : Bytes) → starts_with m s ≡ true → starts_with m (s ++ t) ≡ true
unfolding starts_with
starts_with-longer [] s t h = refl
starts_with-longer (x ∷ m) [] t h = cc
starts_with-longer (x ∷ m) (y ∷ s) t h = ground (arith, starts_with-longer m s t)

starts_with-shorter : (m s t : Bytes) → starts_with m (s ++ t) ≡ false → starts_with m s ≡ false
starts_with-shorter m s t h = elim (Bool-cases (starts_with m s)) [
  | inl e ↦ cc (starts_with-longer m s t e)
  | inr e ↦ e
]

-- A text shorter than the marker has none.
Free-short : (m s : Bytes) → length s < length m → Free m s
unfolding Free
Free-short m [] h = tt
Free-short m (b ∷ s) h = elim (Bool-cases (starts_with m (b ∷ s))) [
  | inl e ↦ absurd (omega (arith, starts_with-length m (b ∷ s) e))
  | inr e ↦ (e, Free-short m s (omega arith))
]

starts_with-split : (m s : Bytes) → starts_with m s ≡ true → s ≡ m ++ drop (length m) s
unfolding starts_with
starts_with-split [] s h = refl
starts_with-split (x ∷ m) [] h = cc
starts_with-split (x ∷ m) (y ∷ s) h =
    let same : x ≡ y = ground (arith, ==_iff x y, h) in
    let rest : starts_with m s ≡ true = ground (arith, h) in
    rw (same, ← starts_with-split m s rest) refl

IsCut-found :
    (x : ℕ) (p s : Bytes) (b : ℕ) (r : Filtered)
    → starts_with (x ∷ p) (b ∷ s) ≡ true
    → IsCut (x ∷ p) (drop (length p) s) r
    → IsCut (x ∷ p) (b ∷ s) (record r { controls = r.controls + 1 })
unfolding after Free AllFree
IsCut-found x p s b r found c = record {
  front = [];
  pieces = c.front ∷ c.pieces;
  joined = starts_with-split (x ∷ p) (b ∷ s) found ∙ ap (λ t. x ∷ (p ++ t)) c.joined;
  shown = c.shown;
  counted = omega (arith, c.counted);
  free = tt;
  all_free = (c.free, c.all_free);
}

IsCut-plain :
    (m s : Bytes) (b : ℕ) (r : Filtered)
    → starts_with m (b ∷ s) ≡ false
    → IsCut m s r
    → IsCut m (b ∷ s) (record r { out = b ∷ r.out })
unfolding Free
IsCut-plain m s b r miss c = record {
  front = b ∷ c.front;
  pieces = c.pieces;
  joined = ap (◌∷◌ b) c.joined;
  shown = ap (◌∷◌ b) c.shown;
  counted = c.counted;
  free = (
    starts_with-shorter m (b ∷ c.front) (after m c.pieces)
        (sym (ap (λ t. starts_with m (b ∷ t)) c.joined) ∙ miss),
    c.free,
  );
  all_free = c.all_free;
}

IsCut-kept :
    (m s : Bytes) (b : ℕ)
    → starts_with m (b ∷ s) ≡ false
    → starts_with (b ∷ s) m ≡ true
    → IsCut m (b ∷ s) (record { out = []; controls = 0; control_tail = b ∷ s })
unfolding after Free AllFree
IsCut-kept m s b miss start = record {
  front = b ∷ s;
  pieces = [];
  joined = sym (append-nil (b ∷ s));
  shown = sym (append-nil (b ∷ s));
  counted = refl;
  free = (miss, Free-short m s (omega (arith, starts_with-length (b ∷ s) m start)));
  all_free = tt;
}

IsCut-nil : (m : Bytes) → IsCut m [] (record { out = []; controls = 0; control_tail = [] })
unfolding after Free AllFree
IsCut-nil m = record {
  front = [];
  pieces = [];
  joined = refl;
  shown = refl;
  counted = refl;
  free = tt;
  all_free = tt;
}

pub scan-IsCut : (x : ℕ) (p s : Bytes) (k : ℕ) → IsCut (x ∷ p) (drop k s) (scan (x ∷ p) k s)
unfolding scan
scan-IsCut x p [] zero = IsCut-nil (x ∷ p)
scan-IsCut x p [] (suc k) = IsCut-nil (x ∷ p)
scan-IsCut x p (b ∷ s) (suc k) = scan-IsCut x p s k
scan-IsCut x p (b ∷ s) zero = elim (Bool-cases (starts_with (x ∷ p) (b ∷ s))) [
  | inl found ↦
      let skipped : length (x ∷ p) - 1 ≡ length p = omega arith in
      rw (found, skipped)
        (IsCut-found x p s b (scan (x ∷ p) (length p) s) found (scan-IsCut x p s (length p)))
  | inr miss ↦ elim (Bool-cases (starts_with (b ∷ s) (x ∷ p))) [
    | inl start ↦ rw (miss, start) (IsCut-kept (x ∷ p) s b miss start)
    | inr plain ↦
        rw (miss, plain) (IsCut-plain (x ∷ p) s b (scan (x ∷ p) 0 s) miss (scan-IsCut x p s 0))
  ]
]
