-- ===== src/Zpip/Wheel/Safe.antt =====
-- What the checks of a wheel's members give: no name twice, none outside the staging directory, and
-- a bound on the bytes.
use zabawheels.Prelude.Outcome.{Outcome, raised, returned, ◌>>=◌, Holds, Holds-bind, Holds-require}
use zabawheels.Prelude.Dict.{has_id, Distinct, has_id-append, Distinct-append}
use zabawheels.Prelude.{
  ℕ, ◌+◌, ◌*◌, ◌≤◌, ◌≡◌, refl, sym, ap, ◌∙◌, true, false, ◌||◌, List, [], ◌∷◌, ◌++◌, append_assoc,
  append-nil, arith, Bytes, Text, codes, bytes_eq, bytes_eq_refl, ltb, if-elim, if-elim_eq,
}
use zabawheels.Zpip.Wheel.{
  Member, max_wheel_bytes, parts, is_absolute, is_unsafe, scan_members, any_ends_with, safe_members,
  resolve_parts, is_inside, destination, extract_members, extract,
}

abbrev pub names : List Member → List Text
names [] = []
names (m ∷ members) = m.filename ∷ names members

abbrev pub total_size : List Member → ℕ
total_size [] = 0
total_size (m ∷ members) = m.file_size + total_size members

abbrev pub AllSafe : List Member → Type 0
AllSafe [] = Unit
AllSafe (m ∷ members) = (is_unsafe m.filename ≡ false) × AllSafe members

pub record IsSafeWheel (members : List Member) : Type 0 where
  pub safe : AllSafe members
  pub distinct : Distinct (names members)
  pub bounded : total_size members ≤ max_wheel_bytes * 3

AllSafe-append :
    (ms : List Member) (m : Member)
    → AllSafe ms
    → is_unsafe m.filename ≡ false
    → AllSafe (ms ++ m ∷ [])
AllSafe-append [] m a h = (h, tt)
AllSafe-append (x ∷ ms) m (hx, a) h = (hx, AllSafe-append ms m a h)

names-append : (ms ns : List Member) → names (ms ++ ns) ≡ names ms ++ names ns
names-append [] ns = refl
names-append (m ∷ ms) ns = ap (λ u. m.filename ∷ u) (names-append ms ns)

total_size-append :
    (ms : List Member) (m : Member) → total_size (ms ++ m ∷ []) ≡ total_size ms + m.file_size
total_size-append [] m = omega arith
total_size-append (x ∷ ms) m = omega (arith, total_size-append ms m)

-- The names seen are those of the members kept, and the total is their size.
record IsScanned (seen : List Text) (total : ℕ) (members : List Member) : Type 0 where
  wheel : IsSafeWheel members
  same_names : (q : Text) → has_id q seen ≡ has_id q (names members)
  same_total : total_size members ≡ total

IsScanned-kept :
    (m : Member) (seen : List Text) (total : ℕ) (members : List Member)
    → is_unsafe m.filename ≡ false
    → has_id m.filename seen ≡ false
    → total + m.file_size ≤ max_wheel_bytes * 3
    → IsScanned seen total members
    → IsScanned (m.filename ∷ seen) (total + m.file_size) (members ++ m ∷ [])
unfolding has_id
IsScanned-kept m seen total members safe new fits s =
    let names_now = names-append members (m ∷ []) in
    record {
      wheel = record {
        safe = AllSafe-append members m s.wheel.safe safe;
        distinct = rw names_now (
            Distinct-append (names members) m.filename s.wheel.distinct
              (sym (s.same_names m.filename) ∙ new));
        bounded = omega (arith, total_size-append members m, s.same_total);
      };
      same_names = λ q. sym (
          ap (has_id q) names_now
          ∙ has_id-append q (names members) (m.filename ∷ [])
          ∙ ground (arith, s.same_names q));
      same_total = omega (arith, total_size-append members m, s.same_total);
    }

scan_members-IsSafeWheel :
    (infolist : List Member) (seen : List Text) (total : ℕ) (members : List Member)
    → IsScanned seen total members
    → Holds IsSafeWheel (scan_members infolist seen total members)
unfolding scan_members
scan_members-IsSafeWheel [] seen total members s = s.wheel
scan_members-IsSafeWheel (m ∷ infolist) seen total members s =
    let big = ltb max_wheel_bytes m.file_size || ltb (max_wheel_bytes * 3) (total + m.file_size) in
    if-elim_eq (Holds IsSafeWheel) (is_unsafe m.filename) (λ bad. tt)
      (λ safe.
        if-elim_eq (Holds IsSafeWheel) (has_id m.filename seen) (λ twice. tt)
          (λ new.
            if-elim (Holds IsSafeWheel) m.is_dir
              (scan_members-IsSafeWheel infolist seen total members s)
              (if-elim_eq (Holds IsSafeWheel) big (λ large. tt)
                (λ fits.
                  scan_members-IsSafeWheel infolist (m.filename ∷ seen) (total + m.file_size)
                    (members ++ m ∷ [])
                    (IsScanned-kept m seen total members safe new (ground (arith, fits)) s)))))

nothing-IsScanned : IsScanned [] 0 []
nothing-IsScanned = record {
  wheel = record { safe = tt; distinct = tt; bounded = omega arith };
  same_names = λ q. refl;
  same_total = refl;
}

safe_members-Holds : (infolist : List Member) → Holds IsSafeWheel (safe_members infolist)
unfolding safe_members
safe_members-Holds infolist =
    Holds-bind IsSafeWheel IsSafeWheel (scan_members infolist [] 0 []) _
      (scan_members-IsSafeWheel infolist [] 0 [] nothing-IsScanned)
      (λ members wheel.
        Holds-require IsSafeWheel (any_ends_with (codes ".dist-info/WHEEL") members) _ _ (λ _.
          Holds-require IsSafeWheel (any_ends_with (codes ".dist-info/RECORD") members) _ _
            (λ _. wheel)))

-- The path of a safe member, resolved, stands below the staging directory.
resolve_parts-safe :
    (done ps : List Text) → has_id (codes "..") ps ≡ false → resolve_parts done ps ≡ done ++ ps
unfolding resolve_parts has_id
resolve_parts-safe done [] h = sym (append-nil done)
resolve_parts-safe done (p ∷ ps) h =
    let here : bytes_eq p (codes "..") ≡ false = ground (arith, h) in
    rw here
      (resolve_parts-safe (done ++ p ∷ []) ps (ground (arith, h)) ∙ append_assoc done (p ∷ []) ps)

is_inside-append : (root ps : List Text) → is_inside root (root ++ ps) ≡ true
unfolding is_inside
is_inside-append [] ps = refl
is_inside-append (r ∷ root) ps = rw (bytes_eq_refl r) (is_inside-append root ps)

is_inside-destination :
    (staging : List Text) (filename : Text)
    → is_unsafe filename ≡ false
    → is_inside staging (destination staging filename) ≡ true
unfolding is_unsafe destination
is_inside-destination staging filename h =
    let relative : is_absolute filename ≡ false = ground (arith, h) in
    let no_dots : has_id (codes "..") (parts filename) ≡ false = ground (arith, h) in
    rw (relative, resolve_parts-safe staging (parts filename) no_dots)
      (is_inside-append staging (parts filename))

abbrev pub contents : List Member → List (Text × Bytes)
contents [] = []
contents (m ∷ members) = (m.filename, m.content) ∷ contents members

extract_members-AllSafe :
    (staging : List Text) (members : List Member)
    → AllSafe members
    → extract_members staging members ≡ returned (contents members)
unfolding extract_members
extract_members-AllSafe staging [] a = refl
extract_members-AllSafe staging (m ∷ members) (h, a) =
    rw (is_inside-destination staging m.filename h, extract_members-AllSafe staging members a) refl

extract_members-Holds :
    (staging : List Text) (o : Outcome (List Member))
    → Holds IsSafeWheel o
    → (o >>= extract_members staging) ≡ (o >>= λ members. returned (contents members))
extract_members-Holds staging (raised e) h = refl
extract_members-Holds staging (returned members) h = extract_members-AllSafe staging members h.safe

-- Whatever an archive holds, a wheel that passes the checks has no name twice, no absolute name and
-- none with a part `..`, and at most 300 MiB of content; and then every member is unpacked below the
-- staging directory, so that the second check, against an escape, never raises.
pub extract-safe_members :
    (staging : List Text) (infolist : List Member)
    → Holds IsSafeWheel (safe_members infolist)
      × (extract staging infolist
          ≡ (safe_members infolist >>= λ members. returned (contents members)))
unfolding extract
extract-safe_members staging infolist =
    let safe = safe_members-Holds infolist in
    (safe, extract_members-Holds staging (safe_members infolist) safe)
