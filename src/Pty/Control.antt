-- ===== src/Pty/Control.antt =====
-- The filter of the private storage-setup control in app/zmux/pty_session.py:
-- `_possible_control_prefix` and `_filter_pty_controls`. The marker is a parameter of the loops, so
-- that the proofs hold for any marker; the session uses `storage_setup_osc`.
mod Prefix
pub mod Scan
pub mod Stream
pub mod Cut
pub mod Accounts
use zabawheels.Prelude.{
  ℕ, zero, suc, ◌+◌, ◌-◌, min, Option, none, some, [], ◌∷◌, ◌++◌, Bytes, codes, find, bytes_eq,
  starts_with, length, take, drop, take_last, if◌then◌else◌,
}

-- `_STORAGE_SETUP_OSC`
unfoldable pub storage_setup_osc : Bytes
storage_setup_osc = 0x1b ∷ codes "]777;zmux-setup-storage" ++ 7 ∷ []

-- What the filter has produced: the visible bytes, the number of controls removed, and the bytes
-- retained for the next read.
pub record Filtered : Type 0 where
  pub out : Bytes
  pub controls : ℕ
  pub control_tail : Bytes

-- `for size in range(limit, 0, -1)`
unfoldable pub longest_from : Bytes → ℕ → Bytes → ℕ
unfolding bytes_eq
longest_from marker zero bytes = 0
longest_from marker (suc n) bytes =
    let rest = longest_from marker n bytes in
    if bytes_eq (take_last (suc n) bytes) (take (suc n) marker) then suc n else rest

-- `_possible_control_prefix`
unfoldable pub possible_control_prefix : Bytes → Bytes → ℕ
unfolding longest_from
possible_control_prefix marker bytes =
    longest_from marker (min (length bytes) (length marker - 1)) bytes

-- The tail of the loop body, once `find` has answered -1.
unfoldable pub keep_prefix : Bytes → Bytes → Bytes → ℕ → Filtered
unfolding possible_control_prefix
keep_prefix marker pending out controls =
    let keep = possible_control_prefix marker pending in
    elim keep [
      | zero ↦ record { out = out ++ pending; controls = controls; control_tail = [] }
      | suc k ↦ record {
        out = out ++ take (length pending - suc k) pending;
        controls = controls;
        control_tail = take_last (suc k) pending;
      }
    ]

-- `while pending`. Each round but the last removes a marker, so the bytes left bound the rounds.
unfoldable pub filter_loop : ℕ → Bytes → Bytes → Bytes → ℕ → Filtered
unfolding keep_prefix find starts_with
filter_loop fuel marker [] out controls = record {
  out = out;
  controls = controls;
  control_tail = [];
}
filter_loop zero marker (b ∷ pending) out controls = record {
  out = out;
  controls = controls;
  control_tail = [];
}
filter_loop (suc fuel) marker (b ∷ pending) out controls = elim (find marker (b ∷ pending)) [
  | some at ↦
      filter_loop fuel marker (drop (at + length marker) (b ∷ pending))
        (out ++ take at (b ∷ pending)) (controls + 1)
  | none ↦ keep_prefix marker (b ∷ pending) out controls
]

-- `_filter_pty_controls`: the session's `_pty_control_tail` and the bytes read.
unfoldable pub filter_pty_controls : Bytes → Bytes → Bytes → Filtered
unfolding filter_loop
filter_pty_controls marker tail bytes =
    let pending = tail ++ bytes in filter_loop (length pending) marker pending [] 0
