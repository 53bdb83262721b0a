-- ===== src/Zpip/Modules.antt =====
-- The names that a wheel lets a program import: `_modules_from_paths` and `_discover_modules`
-- (app/zmux/zpip.py).
use zabawheels.Prelude.Dict.{has_id}
use zabawheels.Prelude.{
  ◌-◌, Bool, true, false, not, ◌&&◌, ◌||◌, Option, none, some, List, [], ◌∷◌, ◌++◌, map, Bytes,
  Text, codes, bytes_eq, starts_with, strip, length, take, ltb, ◌==◌, is_empty, if◌then◌else◌,
}
use zabawheels.Zpip.Names.{lower, replace_char, import_name}
use zabawheels.Zpip.Wheel.{parts, is_absolute, ends_with_text}

-- `a < b`, for texts.
unfoldable pub text_lt : Text → Text → Bool
text_lt a [] = false
text_lt [] (d ∷ b) = true
text_lt (c ∷ a) (d ∷ b) = ltb c d || (c == d && text_lt a b)

-- A set of names, kept sorted: `names.add(name)`.
unfoldable pub add_sorted : Text → List Text → List Text
add_sorted name [] = name ∷ []
add_sorted name (x ∷ names) =
    let later = add_sorted name names in
    if bytes_eq name x then x ∷ names else if text_lt name x then name ∷ x ∷ names else x ∷ later

-- `sorted(names)`, for names of which none stands twice.
unfoldable pub sorted_names : List Text → List Text
sorted_names [] = []
sorted_names (x ∷ names) = add_sorted x (sorted_names names)

unfoldable pub without_names : List Text → List Text → List Text
without_names gone [] = []
without_names gone (x ∷ names) =
    let rest = without_names gone names in if has_id x gone then rest else x ∷ rest

-- `stem = head[:-3]`
abbrev pub stem_of : Text → Text
stem_of head = take (length head - 3) head

-- The two sets of the scan.
pub record Found : Type 0 where
  pub packages : List Text
  pub modules : List Text

module _ (is_identifier : Text → Bool) where
  -- A path of one part, and a path of more.
  unfoldable pub found_file : Text → Found → Found
  found_file head found =
      if ends_with_text (codes ".py") head
        && is_identifier (stem_of head)
        && not (bytes_eq (stem_of head) (codes "__init__"))
      then record found { modules = add_sorted (stem_of head) found.modules }
      else found

  unfoldable pub found_below : Text → Text → Found → Found
  found_below head second found =
      if bytes_eq second (codes "__init__.py") && is_identifier head
      then record found { packages = add_sorted head found.packages }
      else found

  -- A metadata tree, or a private name.
  abbrev pub is_metadata : Text → Bool
  is_metadata head =
      ends_with_text (codes ".dist-info") head
      || ends_with_text (codes ".data") head
      || starts_with (codes ".") head

  -- The body of the scan, from the path's parts.
  unfoldable pub found_path : List Text → Found → Found
  found_path [] found = found
  found_path (head ∷ []) found = if is_metadata head then found else found_file head found
  found_path (head ∷ second ∷ rest) found =
      if is_metadata head then found else found_below head second found

  -- The first part of an absolute path is the root.
  abbrev pub all_parts : Text → List Text
  all_parts path = if is_absolute path then codes "/" ∷ parts path else parts path

  unfoldable pub scan_paths : List Text → Found → Found
  scan_paths [] found = found
  scan_paths (path ∷ paths) found = scan_paths paths (found_path (all_parts path) found)

  -- The first candidate that passes a test.
  unfoldable pub first_such : (Text → Bool) → List Text → Option Text
  first_such test [] = none
  first_such test (c ∷ candidates) = if test c then some c else first_such test candidates

  -- `[candidate, *[c for c in candidates if c != candidate]]`
  abbrev pub to_front : Text → List Text → List Text
  to_front candidate candidates = candidate ∷ without_names (candidate ∷ []) candidates

  abbrev pub normalised : Text → Text
  normalised dist = lower (replace_char b'.' b'_' (replace_char b'-' b'_' dist))

  -- The candidates, the one that is like the distribution's name first.
  unfoldable pub preferred : Text → List Text → List Text
  preferred dist candidates =
      let name = normalised dist in
      elim (first_such (λ c. bytes_eq (lower c) name) candidates) [
        | some c ↦ to_front c candidates
        | none ↦
            elim (first_such (λ c. starts_with (lower c) name || starts_with name (lower c))
              candidates) [ some c ↦ to_front c candidates | none ↦ candidates ]
      ]

  -- `_modules_from_paths`
  unfoldable pub modules_from_paths : List Text → Text → List Text
  modules_from_paths paths dist =
      let found = scan_paths paths (record { packages = []; modules = [] }) in
      preferred dist (found.packages ++ without_names found.packages found.modules)

  -- The lines of a `top_level.txt` that declare a name.
  unfoldable pub declared_names : List Text → List Text
  declared_names [] = []
  declared_names (line ∷ lines) =
      let rest = declared_names lines in
      if not (is_empty (strip line)) && is_identifier (strip line) then strip line ∷ rest else rest

  abbrev pub or_else : List Text → List Text → List Text
  or_else [] names = names
  or_else (x ∷ xs) names = x ∷ xs

  -- `info / "top_level.txt"`, for an `info` that `glob("*.dist-info")` finds.
  abbrev pub is_top_level : List Text → Bool
  is_top_level (info ∷ file ∷ []) =
      ends_with_text (codes ".dist-info") info && bytes_eq file (codes "top_level.txt")
  is_top_level _ = false

  module _ (lines_of : Bytes → List Text) where
    -- The first `top_level.txt` that declares a name; `lines_of` reads a file's lines.
    unfoldable pub top_level_names : List (Text × Bytes) → Text → List Text
    top_level_names [] dist = []
    top_level_names ((path, content) ∷ files) dist =
        let rest = top_level_names files dist in
        let declared = declared_names (lines_of content) in
        if is_top_level (parts path) && not (is_empty declared)
        then or_else (modules_from_paths (map (λ name. name ++ codes "/__init__.py") declared) dist)
            declared
        else rest

    -- `_discover_modules`, from the files unpacked, in the order in which `glob` finds them.
    unfoldable pub discover_modules : List (Text × Bytes) → Text → List Text
    discover_modules files dist =
        or_else (top_level_names files dist)
          (or_else (modules_from_paths (map (λ f. f.0) files) dist) (import_name dist ∷ []))
