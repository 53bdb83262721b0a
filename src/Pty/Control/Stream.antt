-- ===== src/Pty/Control/Stream.antt =====
-- The control filter over a stream of reads, however the stream is cut.
use zabawheels.Prelude.{
  ℕ, zero, suc, ◌+◌, ◌-◌, ◌≤◌, ◌<◌, ◌≡◌, refl, sym, ap, ◌∙◌, true, false, List, [], ◌∷◌, ◌++◌,
  append-nil, append_assoc, arith, Bytes, codes, starts_with, length, concat, ==_iff, Bool-cases,
  inl, inr,
}
use Prim.Native.Nat.add
use zabawheels.Pty.Control.{storage_setup_osc, Filtered, filter_pty_controls}
use zabawheels.Pty.Control.Prefix.{starts_with-length}
use zabawheels.Pty.Control.Scan.{scan, emit_byte, count_control, filter_pty_controls-scan}

-- What two reads give together.
abbrev pub join : Filtered → Filtered → Filtered
join a b = record {
  out = a.out ++ b.out;
  controls = a.controls + b.controls;
  control_tail = b.control_tail;
}

starts_with-append_right : (p a b : Bytes) → starts_with p a ≡ true → starts_with p (a ++ b) ≡ true
unfolding starts_with
starts_with-append_right [] a b h = refl
starts_with-append_right (x ∷ p) [] b h = cc
starts_with-append_right (x ∷ p) (y ∷ a) b h = ground (arith, starts_with-append_right p a b)

-- Two texts that differ still differ with more behind one of them.
not_starts_with-append :
    (p a b : Bytes)
    → starts_with p a ≡ false
    → starts_with a p ≡ false
    → (starts_with p (a ++ b) ≡ false) × (starts_with (a ++ b) p ≡ false)
unfolding starts_with
not_starts_with-append [] a b h k = cc
not_starts_with-append (x ∷ p) [] b h k = cc
not_starts_with-append (x ∷ p) (y ∷ a) b h k =
    ground (arith, ==_iff x y, ==_iff y x, not_starts_with-append p a b)

count_control-join : (r q : Filtered) → count_control (join r q) ≡ join (count_control r) q
count_control-join r q = ground arith

scan-append :
    (m a b : Bytes) (k : ℕ)
    → 0 < length m
    → k ≤ length a
    → scan m k (a ++ b) ≡ join (scan m k a) (scan m 0 ((scan m k a).control_tail ++ b))
unfolding scan
scan-append m [] b zero pos h = rw add.zero
scan-append m [] b (suc k) pos h = absurd (omega arith)
scan-append m (x ∷ a) b (suc k) pos h = scan-append m a b k pos (omega arith)
scan-append m (x ∷ a) b zero pos h = elim (Bool-cases (starts_with m (x ∷ a))) [
  | inl found ↦
      let fits = starts_with-length m (x ∷ a) found in
      rw (found, starts_with-append_right m (x ∷ a) b found)
        (ap count_control (scan-append m a b (length m - 1) pos (omega arith))
          ∙ count_control-join (scan m (length m - 1) a)
              (scan m 0 ((scan m (length m - 1) a).control_tail ++ b)))
  | inr miss ↦ elim (Bool-cases (starts_with (x ∷ a) m)) [
    | inl start ↦ rw (miss, start, add.zero)
    | inr plain ↦
        let apart = not_starts_with-append m (x ∷ a) b miss plain in
        rw (miss, plain, apart.0, apart.1)
          (ap (emit_byte x) (scan-append m a b 0 pos (omega arith)))
  ]
]

-- What is kept for the next read is the beginning of a marker, and stays kept.
pub scan-control_tail :
    (x : ℕ) (p s : Bytes) (k : ℕ)
    → (starts_with (scan (x ∷ p) k s).control_tail (x ∷ p) ≡ true)
      × (starts_with (x ∷ p) (scan (x ∷ p) k s).control_tail ≡ false)
unfolding scan
scan-control_tail x p [] k = unfold starts_with in (refl, refl)
scan-control_tail x p (b ∷ s) (suc k) = scan-control_tail x p s k
scan-control_tail x p (b ∷ s) zero = elim (Bool-cases (starts_with (x ∷ p) (b ∷ s))) [
  | inl found ↦ rw found (scan-control_tail x p s (length (x ∷ p) - 1))
  | inr miss ↦ elim (Bool-cases (starts_with (b ∷ s) (x ∷ p))) [
    | inl start ↦ rw (miss, start) (start, miss)
    | inr plain ↦ rw (miss, plain) (scan-control_tail x p s 0)
  ]
]

scan_kept :
    (m t : Bytes)
    → starts_with t m ≡ true
    → starts_with m t ≡ false
    → scan m 0 t ≡ record { out = []; controls = 0; control_tail = t }
unfolding scan
scan_kept m [] start miss = refl
scan_kept m (b ∷ t) start miss = rw (miss, start)

-- The session's reads in order, from a retained tail.
unfoldable pub feed : Bytes → Bytes → List Bytes → Filtered
feed m tail [] = record { out = []; controls = 0; control_tail = tail }
feed m tail (r ∷ reads) =
    let f = filter_pty_controls m tail r in join f (feed m f.control_tail reads)

feed-scan :
    (x : ℕ) (p tail : Bytes) (reads : List Bytes)
    → starts_with tail (x ∷ p) ≡ true
    → starts_with (x ∷ p) tail ≡ false
    → feed (x ∷ p) tail reads ≡ scan (x ∷ p) 0 (tail ++ concat reads)
unfolding feed
feed-scan x p tail [] start miss = rw (append-nil, scan_kept (x ∷ p) tail start miss)
feed-scan x p tail (r ∷ reads) start miss =
    let m = x ∷ p in
    let kept = scan-control_tail x p (tail ++ r) 0 in
    let later = feed-scan x p (scan m 0 (tail ++ r)).control_tail reads kept.0 kept.1 in
    rw (filter_pty_controls-scan x p tail r) (
      ap (join (scan m 0 (tail ++ r))) later
      ∙ sym (scan-append m (tail ++ r) (concat reads) 0 (omega arith) (omega arith))
      ∙ rw append_assoc)

feed-filter :
    (x : ℕ) (p : Bytes) (reads : List Bytes)
    → feed (x ∷ p) [] reads ≡ filter_pty_controls (x ∷ p) [] (concat reads)
feed-filter x p reads =
    feed-scan x p [] reads (unfold starts_with in refl) (unfold starts_with in refl)
    ∙ sym (filter_pty_controls-scan x p [] (concat reads))

-- However the output of the Alpine shell is cut into reads, the session shows the same bytes, sees
-- the same number of storage controls and retains the same bytes as if it had come in one read, when
-- nothing has been retained from before.
pub feed-concat :
    (reads : List Bytes)
    → feed storage_setup_osc [] reads ≡ filter_pty_controls storage_setup_osc [] (concat reads)
unfolding storage_setup_osc
feed-concat reads = feed-filter 0x1b (codes "]777;zmux-setup-storage" ++ 7 ∷ []) reads
