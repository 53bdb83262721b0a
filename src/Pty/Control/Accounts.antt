-- ===== src/Pty/Control/Accounts.antt =====
-- What the control filter removes and what it lets through.
use zabawheels.Prelude.{
  ℕ, zero, suc, ◌+◌, ◌-◌, ◌*◌, ◌≤◌, ◌<◌, ◌≡◌, refl, true, [], ◌∷◌, ◌++◌, arith, Bytes, Absent,
  codes, starts_with, length, Bool-cases, inl, inr, length-append, ==_iff,
}
use zabawheels.Pty.Control.{storage_setup_osc, filter_pty_controls}
use zabawheels.Pty.Control.Prefix.{starts_with-length, starts_with-length_lt}
use zabawheels.Pty.Control.Scan.{scan, filter_pty_controls-scan}
use zabawheels.Pty.Control.Cut.{IsCut, scan-IsCut}
use zabawheels.Pty.Control.Stream.{scan-control_tail}

scan_accounts :
    (x : ℕ) (p s : Bytes) (k : ℕ)
    → k ≤ length s
    → length (scan (x ∷ p) k s).out
        + (scan (x ∷ p) k s).controls * length (x ∷ p)
        + length (scan (x ∷ p) k s).control_tail
        + k
      ≡ length s
unfolding scan
scan_accounts x p [] k h = omega arith
scan_accounts x p (b ∷ s) (suc k) h = omega (arith, scan_accounts x p s k (omega arith))
scan_accounts x p (b ∷ s) zero h = elim (Bool-cases (starts_with (x ∷ p) (b ∷ s))) [
  | inl found ↦
      let fits = starts_with-length (x ∷ p) (b ∷ s) found in
      rw found (grind (arith, scan_accounts x p s (length (x ∷ p) - 1) (omega arith)))
  | inr miss ↦ elim (Bool-cases (starts_with (b ∷ s) (x ∷ p))) [
    | inl start ↦ rw (miss, start) (omega arith)
    | inr plain ↦ rw (miss, plain) (omega (arith, scan_accounts x p s 0 (omega arith)))
  ]
]

filter_accounts_of :
    (x : ℕ) (p tail bytes : Bytes)
    → IsCut (x ∷ p) (tail ++ bytes) (filter_pty_controls (x ∷ p) tail bytes)
      × (starts_with (filter_pty_controls (x ∷ p) tail bytes).control_tail (x ∷ p) ≡ true)
      × (length (filter_pty_controls (x ∷ p) tail bytes).out
            + (filter_pty_controls (x ∷ p) tail bytes).controls * length (x ∷ p)
            + length (filter_pty_controls (x ∷ p) tail bytes).control_tail
          ≡ length tail + length bytes)
      × (length (filter_pty_controls (x ∷ p) tail bytes).control_tail < length (x ∷ p))
filter_accounts_of x p tail bytes =
    let s = tail ++ bytes in
    let kept = scan-control_tail x p s 0 in
    rw (filter_pty_controls-scan x p tail bytes) (
      scan-IsCut x p s 0,
      kept.0,
      omega (arith, scan_accounts x p s 0 (omega arith), length-append tail bytes),
      starts_with-length_lt (scan (x ∷ p) 0 s).control_tail (x ∷ p) kept.0 kept.1,
    )

-- No byte of the shell's output is lost but the controls removed: what was retained and what comes are
-- cut at the controls, as many as are counted, into pieces that have none, and the pieces in their order
-- are what is shown and then what is retained, which is a beginning of the control. In bytes, 25 are
-- removed for each control, and fewer than 25 are ever withheld from the screen.
pub filter_accounts :
    (tail bytes : Bytes)
    → IsCut storage_setup_osc (tail ++ bytes) (filter_pty_controls storage_setup_osc tail bytes)
      × (starts_with
            (filter_pty_controls storage_setup_osc tail bytes).control_tail
            storage_setup_osc
          ≡ true)
      × (length (filter_pty_controls storage_setup_osc tail bytes).out
            + (filter_pty_controls storage_setup_osc tail bytes).controls * 25
            + length (filter_pty_controls storage_setup_osc tail bytes).control_tail
          ≡ length tail + length bytes)
      × (length (filter_pty_controls storage_setup_osc tail bytes).control_tail < 25)
unfolding storage_setup_osc
filter_accounts = filter_accounts_of 0x1b (codes "]777;zmux-setup-storage" ++ 7 ∷ [])

scan-Absent :
    (x : ℕ) (p s : Bytes)
    → Absent x s
    → scan (x ∷ p) 0 s ≡ record { out = s; controls = 0; control_tail = [] }
unfolding scan starts_with
scan-Absent x p [] h = refl
scan-Absent x p (b ∷ s) h = ground (arith, scan-Absent x p s h.1, h.0, ==_iff x b, ==_iff b x)

-- Output with no escape byte, and none retained from before, is shown unchanged and at once.
pub filter-Absent :
    (bytes : Bytes)
    → Absent 0x1b bytes
    → filter_pty_controls storage_setup_osc [] bytes
      ≡ record { out = bytes; controls = 0; control_tail = [] }
unfolding storage_setup_osc
filter-Absent bytes h =
    let p = codes "]777;zmux-setup-storage" ++ 7 ∷ [] in
    rw (filter_pty_controls-scan 0x1b p [] bytes) (scan-Absent 0x1b p bytes h)
