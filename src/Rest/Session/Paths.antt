-- ===== src/Rest/Session/Paths.antt =====
-- The search path that `_build_env` (app/zmux/terminal.py) makes.
use zabawheels.Prelude.Dict.{has_id, has_id-append, Distinct, Distinct-append}
use zabawheels.Prelude.{
  ◌≡◌, refl, sym, ap, ◌∙◌, Bool, ◌||◌, ◌&&◌, not, List, [], ◌∷◌, ◌++◌, arith, Text, bytes_eq,
  is_empty, if◌then◌else◌, if-elim_eq, Bool-cases, inl, inr, append_assoc, append-nil, if-elim,
  bytes_eq_iff,
}
use zabawheels.Rest.Session.{add_unseen, system_paths, search_path}

abbrev is_new : Text → List Text → Bool
is_new p parts = not (is_empty p) && not (has_id p parts)

abbrev with_new : Text → List Text → List Text
with_new p parts = if is_new p parts then parts ++ p ∷ [] else parts

-- Membership after the entries `ps`, of which the empty ones are left out.
abbrev HasMembers : List Text → List Text → List Text → Type 0
HasMembers parts ps result =
    (x : Text) → has_id x result ≡ (has_id x parts || (not (is_empty x) && has_id x ps))

Distinct-with_new : (p : Text) (parts : List Text) → Distinct parts → Distinct (with_new p parts)
Distinct-with_new p parts d =
    if-elim_eq Distinct (is_new p parts) (λ new. Distinct-append parts p d (ground (arith, new)))
      (λ old. d)

has_id-with_new :
    (p x : Text) (parts : List Text)
    → has_id x (with_new p parts) ≡ (has_id x parts || (not (is_empty x) && bytes_eq p x))
has_id-with_new p x parts = elim (Bool-cases (bytes_eq p x)) [
  | inl same ↦
      let e = (bytes_eq_iff p x).0 same in
      let K : List Text → Type 0 =
        λ ps. has_id x ps ≡ (has_id x parts || (not (is_empty x) && bytes_eq p x)) in
      let empty : is_empty p ≡ is_empty x = ap is_empty e in
      let there : has_id p parts ≡ has_id x parts = ap (λ y. has_id y parts) e in
      if-elim_eq K (is_new p parts)
        (λ new. has_id-append x parts (p ∷ []) ∙ unfold has_id in ground (arith, same, new, empty))
        (λ old. ground (arith, same, old, empty, there))
  | inr other ↦
      let K : List Text → Type 0 =
        λ ps. has_id x ps ≡ (has_id x parts || (not (is_empty x) && bytes_eq p x)) in
      if-elim_eq K (is_new p parts)
        (λ new. has_id-append x parts (p ∷ []) ∙ unfold has_id in ground (arith, other))
        (λ old. ground (arith, other))
]

add_unseen-members : (parts ps : List Text) → HasMembers parts ps (add_unseen parts ps)
unfolding add_unseen has_id
add_unseen-members parts [] x = ground arith
add_unseen-members parts (p ∷ ps) x =
    ground (arith, add_unseen-members (with_new p parts) ps x, has_id-with_new p x parts)

add_unseen-Distinct : (parts ps : List Text) → Distinct parts → Distinct (add_unseen parts ps)
unfolding add_unseen
add_unseen-Distinct parts [] d = d
add_unseen-Distinct parts (p ∷ ps) d =
    add_unseen-Distinct (with_new p parts) ps (Distinct-with_new p parts d)

-- What was there stays in front.
abbrev StartsWith : List Text → List Text → Type 0
StartsWith parts result = (behind : List Text) × (result ≡ parts ++ behind)

with_new-behind : (p : Text) (parts : List Text) → StartsWith parts (with_new p parts)
with_new-behind p parts =
    if-elim (StartsWith parts) (is_new p parts) (p ∷ [], refl) ([], sym (append-nil parts))

add_unseen-behind : (parts ps : List Text) → StartsWith parts (add_unseen parts ps)
unfolding add_unseen
add_unseen-behind parts [] = ([], sym (append-nil parts))
add_unseen-behind parts (p ∷ ps) =
    let (more, e) = add_unseen-behind (with_new p parts) ps in
    let (one, e') = with_new-behind p parts in
    (one ++ more, e ∙ ap (λ l. l ++ more) e' ∙ append_assoc parts one more)

-- The search path starts with the wrappers' directory, lists no directory twice, and has, besides that
-- directory, the system's directories and the inherited entries that are not empty, and nothing else.
pub search_path_complete :
    (bin_dir : Text) (inherited : List Text)
    → Distinct (search_path bin_dir inherited)
      × ((behind : List Text) × (search_path bin_dir inherited ≡ bin_dir ∷ behind))
      × ((x : Text)
          → has_id x (search_path bin_dir inherited) ≡ (
              bytes_eq bin_dir x
              || (not (is_empty x) && (has_id x system_paths || has_id x inherited))))
unfolding search_path
search_path_complete bin_dir inherited = (
  add_unseen-Distinct (bin_dir ∷ []) (system_paths ++ inherited) (unfold has_id in (refl, tt)),
  add_unseen-behind (bin_dir ∷ []) (system_paths ++ inherited),
  λ x.
      let here : has_id x (bin_dir ∷ []) ≡ bytes_eq bin_dir x = unfold has_id in ground arith in
      ground (
        arith,
        here,
        add_unseen-members (bin_dir ∷ []) (system_paths ++ inherited) x,
        has_id-append x system_paths inherited,
      ),
)
