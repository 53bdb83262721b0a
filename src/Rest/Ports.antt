-- ===== src/Rest/Ports.antt =====
-- The ports that app/zmux/server.py binds on the loopback interface. Whether a port can be bound is a
-- parameter.
pub mod Safe
use zabawheels.Prelude.{
  ℕ, zero, suc, ◌+◌, Bool, true, false, ◌||◌, ◌&&◌, not, Option, none, some, List, [], ◌∷◌, ◌==◌,
  if◌then◌else◌,
}

-- `port in ports`
unfoldable pub has_port : ℕ → List ℕ → Bool
has_port p [] = false
has_port p (q ∷ ports) = q == p || has_port p ports

-- `CHROMIUM_RESTRICTED_PORTS`
abbrev pub chromium_restricted_ports : List ℕ
chromium_restricted_ports =
    0 ∷ 1 ∷ 7 ∷ 9 ∷ 11 ∷ 13 ∷ 15 ∷ 17 ∷ 19 ∷ 20 ∷ 21 ∷ 22 ∷ 23 ∷ 25 ∷ 37 ∷ 42 ∷ 43 ∷ 53 ∷ 69 ∷ 77
    ∷ 79 ∷ 87 ∷ 95 ∷ 101 ∷ 102 ∷ 103 ∷ 104 ∷ 109 ∷ 110 ∷ 111 ∷ 113 ∷ 115 ∷ 117 ∷ 119 ∷ 123 ∷ 135
    ∷ 137 ∷ 139 ∷ 143 ∷ 161 ∷ 179 ∷ 389 ∷ 427 ∷ 465 ∷ 512 ∷ 513 ∷ 514 ∷ 515 ∷ 526 ∷ 530 ∷ 531 ∷ 532
    ∷ 540 ∷ 548 ∷ 554 ∷ 556 ∷ 563 ∷ 587 ∷ 601 ∷ 636 ∷ 989 ∷ 990 ∷ 993 ∷ 995 ∷ 1719 ∷ 1720 ∷ 1723
    ∷ 2049 ∷ 3659 ∷ 4045 ∷ 5060 ∷ 5061 ∷ 6000 ∷ 6566 ∷ 6665 ∷ 6666 ∷ 6667 ∷ 6668 ∷ 6669 ∷ 6697
    ∷ 10080 ∷ []

unfoldable pub is_restricted : ℕ → Bool
is_restricted p = has_port p chromium_restricted_ports

-- `P4A_HTTP_PORT`
abbrev pub p4a_http_port : ℕ
p4a_http_port = 8000

-- A loop over `count` ports from `port` on: the first that is not skipped and can be bound.
unfoldable pub first_bound : (ℕ → Bool) → (ℕ → Bool) → ℕ → ℕ → Option ℕ
first_bound skips can_bind zero port = none
first_bound skips can_bind (suc count) port =
    let further = first_bound skips can_bind count (suc port) in
    if not (skips port) && can_bind port then some port else further

-- The loop of `_bind_http_socket` on Android: a round for each try before the deadline, with whether
-- each of the two hosts can be bound.
unfoldable pub android_bound : List (Bool × Bool) → Option ℕ
android_bound [] = none
android_bound ((loopback, localhost) ∷ rounds) =
    let further = android_bound rounds in
    if loopback || localhost then some p4a_http_port else further

-- `_bind_http_socket`; `none` is its `RuntimeError`. The rounds are those of an Android device.
unfoldable pub bind_http_socket : Option (List (Bool × Bool)) → (ℕ → Bool) → Option ℕ
bind_http_socket rounds can_bind = if is_restricted p4a_http_port then none else elim rounds [
  | some on_android ↦ android_bound on_android
  | none ↦ first_bound (λ port. false) can_bind 11 p4a_http_port
]

-- `_bind_ws_socket`; `none` is its `RuntimeError`.
unfoldable pub bind_ws_socket : (ℕ → Bool) → ℕ → Option ℕ
bind_ws_socket can_bind http_port = first_bound is_restricted can_bind 100 (http_port + 1)
