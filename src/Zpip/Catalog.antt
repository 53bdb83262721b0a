-- ===== src/Zpip/Catalog.antt =====
-- Where a package comes from: `_request_json`, `_manifest_from_curated`, `_manifest_from_pypi`, `resolve`,
-- `_manifest_requirements` and `_satisfies` (app/zmux/zpip.py).
use zabawheels.Prelude.Outcome.{Outcome, raised, returned, ◌>>=◌, ◌>>◌, require, or_raise}
use zabawheels.Prelude.Json.{
  Json, boolean, number, string, array, object, no_items, no_members, member, items_of, find_member,
  get, is_object, is_truthy, is_text,
}
use zabawheels.Prelude.Int.{ℤ, pos}
use zabawheels.Prelude.{
  ℕ, Bool, false, not, ◌||◌, Option, none, some, List, [], ◌∷◌, ◌++◌, Text, codes, starts_with, leb,
  if◌then◌else◌,
}
use zabawheels.Zpip.Names.{canonicalize}
use zabawheels.Zpip.Wheel.{ends_with_text}

-- A metadata response: the length announced, and the value of its body if that is JSON.
pub record Metadata : Type 0 where
  pub announced : ℕ
  pub value : Option Json

-- A requirement as the packaging library reads it: its name, whether its marker applies here, which
-- versions its specifier takes (a version that cannot be read is not taken), and the version that it
-- pins, if it is a single `==` with no wildcard.
pub record Requirement : Type 0 where
  pub name : Text
  pub applies : Bool
  pub takes : Text → Bool
  pub exact : Option Text

-- What the installer asks for outside: the network, the packaging library, Python's `str` and `int` of
-- values that are no texts, and the runtime's identity.
pub record Sources : Type 0 where
  pub index_url : Text
  pub runtime_id : Text
  pub abi : Text
  pub urlopen : Text → Option Metadata
  pub quote : Text → Text
  pub requirement : Json → Option Requirement
  pub str : Json → Text
  pub int : Json → Option ℤ

-- `value.get(key)`, or the `AttributeError` of a value that has no such method.
abbrev pub get_or_raise : Text → Json → Outcome Json
get_or_raise key j = or_raise (get key j) (codes "object has no attribute 'get'")

-- `value.get(key, default)`
unfoldable pub get_default : Text → Json → Json → Outcome Json
get_default key default (object js) = elim (find_member key js) [
  | none ↦ returned default
  | some j ↦ returned j
]
get_default key default _ = raised (codes "object has no attribute 'get'")

-- `value or {}`
abbrev pub or_empty : Json → Json
or_empty j = if is_truthy j then j else object no_members

-- `str(value)`
abbrev pub str_of : Sources → Json → Text
str_of w (string s) = s
str_of w j = w.str j

-- `for x in value`: of a list; of a text or a dict it would be its characters or keys, which the code
-- that runs on them refuses, as it does other values.
abbrev pub iterated : Json → Outcome (List Json)
iterated (array js) = returned (items_of js)
iterated j = raised (codes "not iterable as a list of objects")

module _ (w : Sources) where
  -- `_request_json`
  unfoldable pub request_json : Text → Outcome Json
  request_json url = do
    require (starts_with (codes "https://") url) (codes "Only HTTPS package metadata is accepted")
    response ← or_raise (w.urlopen url) (codes "urlopen error")
    require (leb response.announced 5242880) (codes "Package metadata is too large")
    value ← or_raise response.value (codes "Expecting value")
    require (is_object value) (codes "Package metadata must be a JSON object")
    returned value

  -- The catalog of this runtime.
  abbrev pub catalog_url : Text
  catalog_url =
      w.index_url ++ codes "/runtimes/" ++ w.runtime_id ++ codes "/" ++ w.abi ++ codes ".json"

  -- The checks on a package of the catalog.
  unfoldable pub curated_package : Text → Json → Outcome (Option Json)
  curated_package channel (object js) = do
    found ← get_or_raise (codes "channel") (object js)
    runtime ← get_or_raise (codes "runtime_id") (object js)
    abi ← get_or_raise (codes "abi") (object js)
    if not (is_text channel found)
        then returned none
        else if not (is_text w.runtime_id runtime) || not (is_text w.abi abi)
        then raised (codes "Curated wheel does not match this runtime and ABI")
        else returned (some (object js))
  curated_package channel _ = returned none

  unfoldable pub curated_in : Text → Text → Outcome Json → Outcome (Option Json)
  curated_in name channel (raised e) = returned none
  curated_in name channel (returned index) = do
    packages ← get_or_raise (codes "packages") index
    found ← get_or_raise name (or_empty packages)
    curated_package channel found

  -- `_manifest_from_curated`: an index that cannot be read is no curated package.
  unfoldable pub manifest_from_curated : Text → Text → Outcome (Option Json)
  manifest_from_curated name channel = curated_in name channel (request_json catalog_url)

  -- The first file that is a universal wheel.
  unfoldable pub universal_wheel : List Json → Outcome (Option Json)
  universal_wheel [] = returned none
  universal_wheel (j ∷ js) = do
    let rest = universal_wheel js
    filename ← get_default (codes "filename") (string []) j
    if ends_with_text (codes "-py3-none-any.whl") (str_of w filename)
        then returned (some j)
        else rest

  abbrev pub text_or_empty : Option Text → Text
  text_or_empty none = []
  text_or_empty (some s) = s

  -- A version that is asked for, and is not the empty text.
  abbrev pub endpoint_version : Option Text → Text
  endpoint_version none = []
  endpoint_version (some []) = []
  endpoint_version (some (c ∷ version)) = codes "/" ++ w.quote (c ∷ version)

  abbrev pub endpoint : Text → Option Text → Text
  endpoint name version = codes "https://pypi.org/pypi/" ++ w.quote name ++ endpoint_version version

  -- `selected[key]`
  abbrev pub item_or_raise : Text → Json → Outcome Json
  item_or_raise key (object js) = or_raise (find_member key js) (codes "KeyError")
  item_or_raise key _ = raised (codes "TypeError")

  -- The manifest of a universal wheel.
  unfoldable pub pypi_manifest : Text → Option Text → Json → Json → Outcome Json
  pypi_manifest name version metadata selected = do
    digests ← get_or_raise (codes "digests") selected
    sha256 ← get_default (codes "sha256") (string []) (or_empty digests)
    info ← get_or_raise (codes "info") metadata
    found ← get_default (codes "version") (string (text_or_empty version)) (or_empty info)
    filename ← item_or_raise (codes "filename") selected
    url ← item_or_raise (codes "url") selected
    size ← get_default (codes "size") (number (pos 0)) selected
    size_number ← or_raise (w.int size) (codes "invalid literal for int()")
    dependencies ← get_or_raise (codes "requires_dist") (or_empty info)
    license ← get_default (codes "license") (string []) (or_empty info)
    returned (
        object (
          member (codes "name") (string name) (
            member (codes "version") (string (str_of w found)) (
              member (codes "runtime_id") (string (codes "py3-none-any")) (
                member (codes "abi") (string (codes "any")) (
                  member (codes "channel") (string (codes "pypi")) (
                    member (codes "artifact")
                      (object (
                        member (codes "filename") filename (
                          member (codes "url") url (
                            member (codes "size") (number size_number)
                              (member (codes "sha256") sha256 no_members)))))
                      (member (codes "dependencies")
                        (if is_truthy dependencies then dependencies else array no_items)
                        (member (codes "native")
                          (object (
                            member (codes "has_extensions") (boolean false)
                              (member (codes "needed_libraries") (array no_items) no_members)))
                          (member (codes "source")
                            (object (
                              member (codes "url") (string (endpoint name version)) (
                                member (codes "sha256") (string [])
                                  (member (codes "license") license no_members))))
                            no_members))))))))))

  -- `_manifest_from_pypi`
  unfoldable pub manifest_from_pypi : Text → Option Text → Outcome Json
  manifest_from_pypi name version = do
    metadata ← request_json (endpoint name version ++ codes "/json")
    urls ← get_default (codes "urls") (array no_items) metadata
    files ← iterated urls
    selected ← universal_wheel files
    wheel ← or_raise selected (
        name
        ++ codes " has no universal Python wheel; a runtime-locked ZABAWHEELS build is required")
    pypi_manifest name version metadata wheel

  unfoldable pub or_pypi : Text → Option Text → Option Json → Outcome Json
  or_pypi name version none = manifest_from_pypi name version
  or_pypi name version (some found) = returned found

  -- `resolve`. A curated package is a dict with a channel, so it is never empty.
  unfoldable pub resolve : Text → Option Text → Text → Outcome Json
  resolve name version channel = do
    normalized ← canonicalize name
    curated ← manifest_from_curated normalized channel
    or_pypi normalized version curated

  abbrev pub add_requirement : Option Requirement → List Requirement → List Requirement
  add_requirement none rest = rest
  add_requirement (some r) rest = if r.applies then r ∷ rest else rest

  unfoldable pub requirements_of : List Json → List Requirement
  requirements_of [] = []
  requirements_of (dep ∷ deps) = add_requirement (w.requirement dep) (requirements_of deps)

  -- `_manifest_requirements`
  unfoldable pub manifest_requirements : Json → Outcome (List Requirement)
  manifest_requirements manifest = do
    dependencies ← get_or_raise (codes "dependencies") manifest
    deps ← iterated (if is_truthy dependencies then dependencies else array no_items)
    returned (requirements_of deps)
