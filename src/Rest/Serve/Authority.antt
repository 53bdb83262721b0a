-- ===== src/Rest/Serve/Authority.antt =====
-- What a request may do without the token: app/zmux/server.py.
use zabawheels.Prelude.{
  ◌≤◌, ◌<◌, ◌⊎◌, codes, ◌≡◌, ◌≢◌, refl, ap, Bool, true, false, ◌&&◌, Option, none, some, List, [],
  ◌∷◌, arith, Bytes, Text, bytes_eq, bytes_eq_iff, leb, leb→le, length, strip, if-elim, if-elim_eq,
  Bool-cases, inl, inr,
}
use zabawheels.Rest.Token.{
  TokenFile, absent, unreadable, holds, load_or_create_token, is_ascii, compare_digest,
  verify_token,
}
use zabawheels.Rest.Session.{ShellOps}
use zabawheels.Rest.Api.{
  Route, static, index, health, exec, input, stop, status, prompt, Request, Reply, reply, failed,
  page, content_of, not_found, Backend, App, message_of,
}
use zabawheels.Rest.Serve.{
  health_result, served, respond, is_open, guarded, handle_route, handle_all,
}

-- The token is at least 16 characters long.
load_or_create_token-long :
    (can_write : Bool) (fresh : Text) (file : TokenFile)
    → 16 ≤ length fresh
    → 16 ≤ length (load_or_create_token can_write fresh file).0
unfolding load_or_create_token
load_or_create_token-long can_write fresh absent h = h
load_or_create_token-long can_write fresh unreadable h = h
load_or_create_token-long can_write fresh (holds text) h =
    if-elim_eq {A = Text × TokenFile} (λ p. 16 ≤ length p.0) (leb 16 (length (strip text)))
      (λ long. leb→le 16 (length (strip text)) long) (λ short. h)

-- Without the token no check succeeds.
compare_digest-other : (a b : Text) → a ≢ b → compare_digest a b ≢ some true
unfolding compare_digest
compare_digest-other a b ne e = elim (Bool-cases (bytes_eq a b)) [
  | inl same ↦ ne ((bytes_eq_iff a b).0 same)
  | inr other ↦
      let K : Option Bool → Type 0 = λ o. o ≢ some true in
      if-elim K (is_ascii a && is_ascii b) {x = some (bytes_eq a b)} {y = none}
        (rw other (λ wrong. cc wrong)) (λ wrong. cc wrong) e
]

verify_token-other :
    (auth_token token : Text) → token ≢ auth_token → verify_token auth_token token ≢ some true
unfolding verify_token
verify_token-other auth_token [] ne e = cc e
verify_token-other auth_token (c ∷ token) ne e = compare_digest-other (c ∷ token) auth_token ne e

-- A request without the token: what it sends is too short, or something else.
abbrev pub Lacks : Text → Request → Type 0
Lacks auth_token r = (length r.token < 16) ⊎ (r.token ≢ auth_token)

abbrev pub AllLack : Text → List Request → Type 0
AllLack auth_token [] = Unit
AllLack auth_token (r ∷ rs) = Lacks auth_token r × AllLack auth_token rs

Lacks-other :
    (auth_token : Text) (r : Request)
    → 16 ≤ length auth_token
    → Lacks auth_token r
    → r.token ≢ auth_token
Lacks-other auth_token r long (inl short) e =
    let same : length r.token ≡ length auth_token = ap length e in absurd (omega arith)
Lacks-other auth_token r long (inr other) e = other e

-- The answer of an open route, or a refusal.
abbrev pub IsPublic : Text → Route → Reply → Type 0
IsPublic auth_token (static path) answer =
    ((content : Bytes) × (answer ≡ content_of content)) ⊎ (answer ≡ not_found)
IsPublic auth_token index answer = answer ≡ page auth_token
IsPublic auth_token health answer = answer ≡ reply 200 health_result
IsPublic auth_token _ answer =
    (answer ≡ reply 401 (message_of (codes "Access denied"))) ⊎ (answer ≡ failed)

abbrev pub AllPublic : Text → List Request → List Reply → Type 0
AllPublic auth_token [] answers = answers ≡ []
AllPublic auth_token (r ∷ rs) [] = ⊥
AllPublic auth_token (r ∷ rs) (answer ∷ answers) =
    IsPublic auth_token r.route answer × AllPublic auth_token rs answers

module _ (ops : ShellOps) (backend : Backend ops) where
  open ops use {Shell}
  open backend use {Packages}

  -- `require_auth` refuses.
  guarded-refuses :
      (o : Option Bool) (auth_token : Text) (r : Request) (route : Route) (a : App Shell Packages)
      → o ≢ some true
      → ((guarded ops backend o auth_token r route a).1 ≡ a)
        × (((guarded ops backend o auth_token r route a).0
              ≡ reply 401 (message_of (codes "Access denied")))
            ⊎ ((guarded ops backend o auth_token r route a).0 ≡ failed))
  unfolding guarded
  guarded-refuses none auth_token r route a no_token = (refl, inr refl)
  guarded-refuses (some false) auth_token r route a no_token = (refl, inl refl)
  guarded-refuses (some true) auth_token r route a no_token = absurd (no_token refl)

  served-IsPublic :
      (o : Option Bytes)
      → ((content : Bytes) × (served ops backend o ≡ content_of content))
        ⊎ (served ops backend o ≡ not_found)
  unfolding served
  served-IsPublic none = inr refl
  served-IsPublic (some content) = inl (content, refl)

  handle-refuses :
      (auth_token : Text) (r : Request) (route : Route) (a : App Shell Packages)
      → r.token ≢ auth_token
      → ((handle_route ops backend auth_token r route a).1 ≡ a)
        × IsPublic auth_token route (handle_route ops backend auth_token r route a).0
  unfolding handle_route is_open
  handle-refuses auth_token r (static path) a other =
      unfold respond in (refl, served-IsPublic (backend.static_file path))
  handle-refuses auth_token r index a other = unfold respond in (refl, refl)
  handle-refuses auth_token r health a other = unfold respond in (refl, refl)
  handle-refuses auth_token r exec a other =
      guarded-refuses _ auth_token r exec a (verify_token-other auth_token r.token other)
  handle-refuses auth_token r input a other =
      guarded-refuses _ auth_token r input a (verify_token-other auth_token r.token other)
  handle-refuses auth_token r stop a other =
      guarded-refuses _ auth_token r stop a (verify_token-other auth_token r.token other)
  handle-refuses auth_token r status a other =
      guarded-refuses _ auth_token r status a (verify_token-other auth_token r.token other)
  handle-refuses auth_token r prompt a other =
      guarded-refuses _ auth_token r prompt a (verify_token-other auth_token r.token other)

  handle_all-refuses :
      (auth_token : Text) (rs : List Request) (a : App Shell Packages)
      → 16 ≤ length auth_token
      → AllLack auth_token rs
      → ((handle_all ops backend auth_token rs a).1 ≡ a)
        × AllPublic auth_token rs (handle_all ops backend auth_token rs a).0
  unfolding handle_all
  handle_all-refuses auth_token [] a long none_has = (refl, refl)
  handle_all-refuses auth_token (r ∷ rs) a long (lacks, none_has) =
      let other : r.token ≢ auth_token = Lacks-other auth_token r long lacks in
      let (same, denied) = handle-refuses auth_token r r.route a other in
      let (later, refused) = handle_all-refuses auth_token rs a long none_has in
      rw same (later, (denied, refused))

  -- The token is at least 16 characters long, however its file was found, so that requests whose token
  -- is shorter, or any other text, change nothing whatever they ask for: the session and the packages
  -- stay as they are, and each gets a refusal, but for the health check, for the static files, and for the
  -- terminal page, which carries the token.
  pub handle_all-unauthorized :
      (can_write : Bool) (fresh : Text) (file : TokenFile) (rs : List Request)
      (a : App Shell Packages)
      → length fresh ≡ 32
      → AllLack (load_or_create_token can_write fresh file).0 rs
      → (16 ≤ length (load_or_create_token can_write fresh file).0)
        × ((handle_all ops backend (load_or_create_token can_write fresh file).0 rs a).1 ≡ a)
        × AllPublic
            (load_or_create_token can_write fresh file).0
            rs
            (handle_all ops backend (load_or_create_token can_write fresh file).0 rs a).0
  handle_all-unauthorized can_write fresh file rs a drawn lack =
      let long = load_or_create_token-long can_write fresh file (omega arith) in
      let (same, denied) =
        handle_all-refuses (load_or_create_token can_write fresh file).0 rs a long lack in
      (long, same, denied)
