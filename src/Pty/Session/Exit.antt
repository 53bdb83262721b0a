-- ===== src/Pty/Session/Exit.antt =====
-- When the Alpine shell opens, and what the end of its process does.
use zabawheels.Prelude.{
  ℕ, ◌<◌, ◌≡◌, ◌≢◌, refl, ap, ap₂, ◌∙◌, Bool, true, false, ◌&&◌, ◌||◌, not, Option, none, some,
  Text, codes, arith, Bool-cases, inl, inr, if◌then◌else◌, encode, ◌++◌,
}
use zabawheels.Pty.Terminal.{Terminal, shell, emit}
use zabawheels.Pty.Terminal.Fields.{SameInput, emit-SameInput, emit_prompt-SameInput}
use zabawheels.Pty.Session.{
  banner, exit_message, Host, auto_start_alpine, has_pty, is_pty, report_error, spawn_pty,
  launch_pty, enter_linux_pty, pty_exited, not_installed_message,
}

abbrev is_none : Option Text → Bool
is_none none = true
is_none (some message) = false

-- All that opening the Alpine shell asks for.
abbrev pub opens : Host → Terminal → Bool
opens host t =
    not (not t.is_running || has_pty t.pty || t.busy)
    && host.installed
    && is_none host.argv_error
    && is_none host.spawn_error

pty-report_error : (message : Text) (t : Terminal) → (report_error message t).pty ≡ t.pty
unfolding report_error
pty-report_error message t =
    let m = encode (codes "zmux: " ++ (message ++ codes "\r\n")) in
    (emit_prompt-SameInput (emit m t)).pty ∙ (emit-SameInput m t).pty

pty-spawn_pty :
    (e : Option Text) (t : Terminal)
    → (spawn_pty e t).pty ≡ (if is_none e then some t.spawned else t.pty)
unfolding spawn_pty
pty-spawn_pty none t = refl
pty-spawn_pty (some message) t = pty-report_error message t

pty-launch_pty :
    (host : Host) (a : Option Text) (t : Terminal)
    → (launch_pty host a t).pty
      ≡ (if is_none a && is_none host.spawn_error then some t.spawned else t.pty)
unfolding launch_pty
pty-launch_pty host (some message) t = pty-report_error message t
pty-launch_pty host none t =
    let s = emit-SameInput banner (record t { mode = shell }) in
    pty-spawn_pty host.spawn_error (emit banner (record t { mode = shell }))
    ∙ ap₂ (λ (n : ℕ) (p : Option ℕ). if is_none host.spawn_error then some n else p) s.spawned s.pty

-- The Alpine shell opens exactly when the session runs, has no Alpine shell and runs no command, the
-- rootfs is installed, and neither the command line nor the PTY is refused. It is then the process
-- with the next number; in every other case the session's process stays what it was.
pub pty-enter_linux_pty :
    (host : Host) (t : Terminal)
    → (enter_linux_pty host t).pty ≡ (if opens host t then some t.spawned else t.pty)
unfolding enter_linux_pty
pty-enter_linux_pty host t = elim (Bool-cases (not t.is_running || has_pty t.pty || t.busy)) [
  | inl refused ↦ simp refused
  | inr free ↦ elim (Bool-cases host.installed) [
    | inl there ↦ simp (free, there) (pty-launch_pty host host.argv_error t)
    | inr missing ↦
        simp (free, missing)
          ((emit_prompt-SameInput (emit not_installed_message t)).pty
            ∙ (emit-SameInput not_installed_message t).pty)
  ]
]

-- All that a fresh Alpine shell in place of an ended one asks for.
abbrev pub reopens : Host → Terminal → Bool
reopens host t =
    t.is_running
    && not t.busy
    && host.installed
    && host.has_proot
    && is_none host.argv_error
    && is_none host.spawn_error

not_is_pty : (o : Option ℕ) (p : ℕ) → o ≢ some p → is_pty o p ≡ false
not_is_pty none p ne = refl
not_is_pty (some q) p ne = ground (arith, ne)

is_pty_self : (p : ℕ) → is_pty (some p) p ≡ true
is_pty_self p = ground arith

-- The opening after an exit, from what the notice of the exit leaves.
pty_reopened :
    (host : Host) (t u : Terminal)
    → SameInput u (record t { pty = none })
    → (if u.is_running && auto_start_alpine host then enter_linux_pty host u else u).pty
      ≡ (if reopens host t then some t.spawned else none)
pty_reopened host t u s =
    ground (arith, pty-enter_linux_pty host u, s.is_running, s.busy, s.pty, s.spawned)

-- When the process of the Alpine shell ends, the session's process is the next one if a shell can
-- open again, and none otherwise; the end of any other process leaves the session's process.
pub pty-pty_exited :
    (host : Host) (p : ℕ) (code : Text) (t : Terminal)
    → (pty_exited host p code t).pty
      ≡ (if is_pty t.pty p then (if reopens host t then some t.spawned else none) else t.pty)
unfolding pty_exited
pty-pty_exited host p code t = elim (Bool-cases (is_pty t.pty p)) [
  | inl current ↦
      let u = emit (exit_message code) (record t { pty = none }) in
      simp current
        (pty_reopened host t u (emit-SameInput (exit_message code) (record t { pty = none })))
  | inr other ↦ simp other refl
]

-- The end of another process changes nothing at all.
pty_exited-other :
    (host : Host) (p : ℕ) (code : Text) (t : Terminal)
    → t.pty ≢ some p
    → pty_exited host p code t ≡ t
unfolding pty_exited
pty_exited-other host p code t ne = simp (not_is_pty t.pty p ne)

-- The numbers of processes grow: the session's own is older than the next.
abbrev pub OwnsOlder : Terminal → Type 0
OwnsOlder t = (p : ℕ) → t.pty ≡ some p → p < t.spawned

-- A second notice of the same end changes nothing: it meets the shell that took the place, or none.
pub pty_exited-again :
    (host : Host) (p : ℕ) (code code' : Text) (t : Terminal)
    → OwnsOlder t
    → t.pty ≡ some p
    → pty_exited host p code' (pty_exited host p code t) ≡ pty_exited host p code t
pty_exited-again host p code code' t older e =
    let current : is_pty t.pty p ≡ true = ap (λ o. is_pty o p) e ∙ is_pty_self p in
    let reopened = pty-pty_exited host p code t in
    pty_exited-other host p code' (pty_exited host p code t) (
      fresh (reopens host t) (
        reopened
        ∙ ap (λ b. if b then (if reopens host t then some t.spawned else none) else t.pty) current))
  where
    fresh :
        (b : Bool)
        → (pty_exited host p code t).pty ≡ (if b then some t.spawned else none)
        → (pty_exited host p code t).pty ≢ some p
    fresh true q r = let below = older p e in absurd (ground arith)
    fresh false q r = cc
