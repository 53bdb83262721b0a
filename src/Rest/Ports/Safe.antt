-- ===== src/Rest/Ports/Safe.antt =====
-- Which ports app/zmux/server.py ends up with.
use zabawheels.Prelude.{
  ℕ, zero, suc, ◌+◌, ◌≤◌, ◌<◌, ◌≡◌, refl, ap, ◌∙◌, Bool, true, false, ◌||◌, ◌&&◌, not, Option, none,
  some, List, [], ◌∷◌, arith, ◌==◌, ==_iff, subst, ltb, ltb→lt, if-elim, if-elim_eq, Bool-cases,
  inl, inr,
}
use zabawheels.Rest.Ports.{
  has_port, chromium_restricted_ports, is_restricted, p4a_http_port, first_bound, android_bound,
  bind_http_socket, bind_ws_socket,
}

-- The answer of a search through `count` ports from `port` on: the port found can be used and is one of
-- them, and none before it can; where none is found, none of them can.
abbrev pub IsFirst : (ℕ → Bool) → (ℕ → Bool) → ℕ → ℕ → Option ℕ → Type 0
IsFirst skips can_bind count port none =
    (q : ℕ) → port ≤ q → q < port + count → (not (skips q) && can_bind q) ≡ false
IsFirst skips can_bind count port (some p) =
    (port ≤ p)
    × (p < port + count)
    × (skips p ≡ false)
    × (can_bind p ≡ true)
    × ((q : ℕ) → port ≤ q → q < p → (not (skips q) && can_bind q) ≡ false)

-- What fails at a port and after it, fails from it on.
from_port :
    (P : ℕ → Bool) (port q : ℕ)
    → P port ≡ false
    → (suc port ≤ q → P q ≡ false)
    → port ≤ q
    → P q ≡ false
from_port P port q at_port later le = elim (Bool-cases (q == port)) [
  | inl same ↦ ap P ((==_iff q port).0 same) ∙ at_port
  | inr other ↦ later (ground (arith, other, ==_iff q port, le))
]

IsFirst-later :
    (skips can_bind : ℕ → Bool) (count port : ℕ) (o : Option ℕ)
    → (not (skips port) && can_bind port) ≡ false
    → IsFirst skips can_bind count (suc port) o
    → IsFirst skips can_bind (suc count) port o
IsFirst-later skips can_bind count port none passed later = λ q le lt.
    from_port (λ r. not (skips r) && can_bind r) port q passed
      (λ above. later q above (omega arith)) le
IsFirst-later skips can_bind count port (some p) passed (above, below, free, bound, first) = (
  omega arith,
  omega arith,
  free,
  bound,
  λ q le lt.
      from_port (λ r. not (skips r) && can_bind r) port q passed (λ beyond. first q beyond lt) le,
)

first_bound-IsFirst :
    (skips can_bind : ℕ → Bool) (count port : ℕ)
    → IsFirst skips can_bind count port (first_bound skips can_bind count port)
unfolding first_bound
first_bound-IsFirst skips can_bind zero port = λ q le lt. absurd (omega arith)
first_bound-IsFirst skips can_bind (suc count) port =
    if-elim_eq (IsFirst skips can_bind (suc count) port) (not (skips port) && can_bind port)
      (λ usable. (
        omega arith,
        omega arith,
        ground (arith, usable),
        ground (arith, usable),
        λ q le lt. absurd (omega arith),
      ))
      (λ passed.
        IsFirst-later skips can_bind count port _ passed
          (first_bound-IsFirst skips can_bind count (suc port)))

-- None of the HTTP ports is one that the browser refuses.
abbrev pub IsHttpPort : Option ℕ → Type 0
IsHttpPort none = Unit
IsHttpPort (some p) = (8000 ≤ p) × (p ≤ 8010) × (is_restricted p ≡ false)

-- The ports of the list are below 8000 or above 8010.
abbrev all_outside : List ℕ → Bool
all_outside [] = true
all_outside (q ∷ ports) = (ltb q 8000 || ltb 8010 q) && all_outside ports

has_port-outside :
    (p : ℕ) (ports : List ℕ)
    → 8000 ≤ p
    → p ≤ 8010
    → all_outside ports ≡ true
    → has_port p ports ≡ false
unfolding has_port
has_port-outside p [] low high out = refl
has_port-outside p (q ∷ ports) low high out = ground (
  arith,
  out,
  low,
  high,
  ltb→lt q 8000,
  ltb→lt 8010 q,
  ==_iff q p,
  has_port-outside p ports low high,
)

not_restricted : (p : ℕ) → 8000 ≤ p → p ≤ 8010 → is_restricted p ≡ false
unfolding is_restricted
not_restricted p low high = has_port-outside p chromium_restricted_ports low high refl

-- The port 5000 of the other app, and its range above.
abbrev pub IsForeign : ℕ → Type 0
IsForeign p = (5000 ≤ p) × (p ≤ 5100)

android_bound-IsHttpPort : (rounds : List (Bool × Bool)) → IsHttpPort (android_bound rounds)
unfolding android_bound
android_bound-IsHttpPort [] = tt
android_bound-IsHttpPort ((a, b) ∷ rounds) =
    if-elim IsHttpPort (a || b)
      (omega arith, omega arith, not_restricted 8000 (omega arith) (omega arith))
      (android_bound-IsHttpPort rounds)

IsFirst-IsHttpPort :
    (can_bind : ℕ → Bool) (o : Option ℕ)
    → IsFirst (λ port. false) can_bind 11 p4a_http_port o
    → IsHttpPort o
IsFirst-IsHttpPort can_bind none first = tt
IsFirst-IsHttpPort can_bind (some p) (low, high, free, bound, rest) =
    let top : p ≤ 8010 = omega arith in (low, top, not_restricted p low top)

bind_http_socket-IsHttpPort :
    (rounds : Option (List (Bool × Bool))) (can_bind : ℕ → Bool)
    → IsHttpPort (bind_http_socket rounds can_bind)
unfolding bind_http_socket
bind_http_socket-IsHttpPort none can_bind =
    if-elim IsHttpPort (is_restricted p4a_http_port) tt (
      IsFirst-IsHttpPort can_bind _ (first_bound-IsFirst (λ port. false) can_bind 11 p4a_http_port))
bind_http_socket-IsHttpPort (some rounds) can_bind =
    if-elim IsHttpPort (is_restricted p4a_http_port) tt (android_bound-IsHttpPort rounds)

-- Whatever ports are taken, on Android or not, where the HTTP listener gets a port the browser can load
-- it and the other app does not use it, and the websocket listener then gets the first port of the
-- hundred above that the browser does not refuse and that can be bound, or none where there is none.
pub sockets-IsFirst :
    (rounds : Option (List (Bool × Bool))) (can_bind : ℕ → Bool) (http : ℕ)
    → bind_http_socket rounds can_bind ≡ some http
    → (is_restricted http ≡ false)
      × (¬ IsForeign http)
      × IsFirst is_restricted can_bind 100 (http + 1) (bind_ws_socket can_bind http)
unfolding bind_ws_socket
sockets-IsFirst rounds can_bind http bound =
    let (low, high, free) = subst IsHttpPort bound (bind_http_socket-IsHttpPort rounds can_bind) in
    (free, λ (above, below). omega arith, first_bound-IsFirst is_restricted can_bind 100 (http + 1))
