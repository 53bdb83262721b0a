-- ===== src/Streams/Pending.antt =====
-- How much text waits for its newline.
use zabawheels.Prelude.{
  ℕ, ◌≤◌, ◌<◌, max, ◌≡◌, refl, sym, ap, subst, Option, none, some, [], ◌∷◌, ◌++◌, arith, Text,
  Absent, length, drop, get_or, length-append, leb, Bool-cases, inl, inr,
}
use zabawheels.Streams.{StreamingWriter, partial_flush_threshold, rpartition, write_lines, write}
use zabawheels.Streams.Shown.{IsParted, rpartition-IsParted, pending-flush}

-- The last newline of a text with no newline in its first part stands in the second.
parted-lt :
    (p t head tail : Text) → p ++ t ≡ head ++ 10 ∷ tail → Absent 10 p → length tail < length t
parted-lt [] t head tail e h = omega (arith, ap length e, length-append head (10 ∷ tail))
parted-lt (x ∷ p) t [] tail e (hx, h) = absurd (hx (ap (λ s. get_or s 0 0) e))
parted-lt (x ∷ p) t (y ∷ head) tail e (hx, h) = parted-lt p t head tail (ap (drop 1) e) h

write_lines-pending :
    (o : Option (Text × Text)) (p t : Text) (w : StreamingWriter)
    → w.pending ≡ p ++ t
    → IsParted (p ++ t) o
    → Absent 10 p
    → Absent 10 (write_lines o w).pending × (length (write_lines o w).pending ≤ max 255 (length t))
unfolding write_lines
write_lines-pending none p t w e parted h =
    elim (Bool-cases (leb partial_flush_threshold (length w.pending))) [
      | inl long ↦ let empty = pending-flush w in simp (long, empty) (tt, omega arith)
      | inr short ↦ simp short (subst (Absent 10) (sym e) parted, ground arith)
    ]
write_lines-pending (some (head, tail)) p t w e (whole, parted) h =
    let fewer = parted-lt p t head tail whole h in (parted, omega arith)

-- No complete line ever waits, and no more characters wait than the longer of 255 and the text of the
-- last write.
pub write-pending :
    (c : ℕ) (text : Text) (w : StreamingWriter)
    → Absent 10 w.pending
    → Absent 10 (write (c ∷ text) w).pending
      × (length (write (c ∷ text) w).pending ≤ max 255 (length (c ∷ text)))
unfolding write
write-pending c text w h =
    write_lines-pending (rpartition (w.pending ++ c ∷ text)) w.pending (c ∷ text) _ refl
      (rpartition-IsParted (w.pending ++ c ∷ text)) h
