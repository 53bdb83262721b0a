-- ===== src/Zpip/Tests.antt =====
-- The package manager at a small index, where each wheel requires `six`, and the theorems at that input.
use zabawheels.Prelude.{
  ◌≡◌, refl, inl, inr, true, false, Option, none, some, List, [], ◌∷◌, Bytes, Text, codes,
  starts_with, bytes_eq, bytes_eq_iff, subst, arith, Bool-cases, if◌then◌else◌, ◌&&◌, strip,
}
use zabawheels.Prelude.Int.{pos}
use zabawheels.Prelude.Outcome.{◌>>=◌, raised, returned, Holds, Outcome-cases}
use zabawheels.Prelude.Dict.{has_id, Distinct, keys, lookup, insert}
use zabawheels.Prelude.Json.{
  Json, find_member, get, is_truthy, string, array, object, no_items, item, no_members, member,
}
use zabawheels.Zpip.Names.{canonicalize, is_name, dashed, lower, all_chars}
use zabawheels.Zpip.Wheel.{Member, ends_with_text, extract, safe_members}
use zabawheels.Zpip.Wheel.Safe.{IsSafeWheel, contents, extract-safe_members}
use zabawheels.Zpip.Modules.{sorted_names, add_sorted, text_lt}
use zabawheels.Zpip.Catalog.{
  get_default, request_json, curated_in, manifest_from_curated, universal_wheel, pypi_manifest,
  manifest_from_pypi, or_pypi, resolve, requirements_of, manifest_requirements, Sources,
  Requirement,
}
use zabawheels.Zpip.Disk.{commit_files, commit_file, remove_obsolete, put_file, back_up}
use zabawheels.Zpip.Store.{Package, Store, uninstall_canonical, is_below}
use zabawheels.Zpip.Store.Removed.{uninstall_canonical-some}
use zabawheels.Zpip.Install.{World, paths, staged, has_collision, transact, install}
use zabawheels.Zpip.Install.Transaction.{Transacted, transact-Transacted}
use zabawheels.Zpip.Install.Owned.{IsOwned, IsOwned-insert, no_packages-IsOwned, install-IsOwned}
use zabawheels.Zpip.Install.Ends.{IsClosed, AreKnown, install-enough}

abbrev metadata : Json
metadata = object (
    member (codes "info")
      (object (
        member (codes "version") (string (codes "1.0")) (
          member (codes "requires_dist") (array (item (string (codes "six")) no_items))
            no_members)))
      (member (codes "urls")
        (array (
          item
            (object (
              member (codes "filename") (string (codes "w-1.0-py3-none-any.whl")) (
                member (codes "url") (string (codes "https://files/w.whl")) (
                  member (codes "digests")
                    (object (member (codes "sha256") (string (codes "00")) no_members))
                    no_members))))
            no_items))
        no_members))

abbrev six : Requirement
six = record { name = codes "six"; applies = true; takes = λ version. true; exact = none }

abbrev pub pypi : Sources
pypi = record {
  index_url = codes "https://index";
  runtime_id = codes "cp314";
  abi = codes "arm64";
  urlopen = λ url.
      if starts_with (codes "https://pypi") url
      then some (record { announced = 100; value = some metadata })
      else none;
  quote = λ text. codes "w";
  requirement = λ j. some six;
  str = λ j. [];
  int = λ j. some (pos 0);
}

abbrev pub phone : World
phone = record {
  sources = pypi;
  fetch = λ url. none;
  sha256 = λ body. codes "00";
  infolist = λ body. raised (codes "File is not a zip file");
  lines_of = λ body. [];
  is_identifier = λ text. true;
  imports = λ files name. returned tt;
  staging = codes "staging" ∷ [];
  base = codes "packages" ∷ [];
  writable = λ path. true;
  removable = λ path. true;
  restorable = λ path. true;
  can_save = true;
}

abbrev with_files : List Text → Package
with_files files = record {
  version = codes "1.0";
  runtime_id = codes "cp314";
  abi = codes "arm64";
  channel = codes "stable";
  files = files;
  sha256 = codes "00";
  size = 1;
  modules = [];
  explicit = true;
}

-- One package, with two files, of which a new wheel has one.
abbrev pub shelf : Store
shelf = record {
  disk = λ path. some (1 ∷ []);
  db = (codes "app", with_files (codes "a.py" ∷ codes "b.py" ∷ [])) ∷ [];
}

abbrev wheel : List (Text × Bytes)
wheel = (codes "a.py", 2 ∷ []) ∷ (codes "c.py", 3 ∷ []) ∷ []

wheel-Distinct : Distinct (paths wheel)
unfolding has_id bytes_eq
wheel-Distinct = (refl, (refl, tt))

transact-Transacted_example :
    Transacted phone
      (codes "app")
      (with_files [])
      wheel
      (codes "a.py" ∷ codes "b.py" ∷ [])
      shelf
      (codes "b.py")
      (transact phone (codes "app") (with_files []) wheel shelf)
unfolding lookup bytes_eq
transact-Transacted_example =
    transact-Transacted phone (codes "app") (with_files []) wheel shelf (codes "b.py")
      wheel-Distinct

transacted_b :
    (transact phone (codes "app") (with_files []) wheel shelf).1.disk (codes "b.py") ≡ none
unfolding transact commit_files commit_file remove_obsolete put_file back_up has_id lookup insert
    bytes_eq staged
transacted_b = refl

shelf-Distinct : Distinct (keys shelf.db)
unfolding has_id
shelf-Distinct = (refl, tt)

uninstall_canonical-some_example :
    ((uninstall_canonical phone.base (codes "app") shelf).1.disk (codes "b.py") ≡ (
      if has_id (codes "b.py") (codes "a.py" ∷ codes "b.py" ∷ [])
        && is_below phone.base (codes "b.py")
      then none
      else some (1 ∷ [])))
    × (lookup (codes "app") (uninstall_canonical phone.base (codes "app") shelf).1.db
        ≡ (if bytes_eq (codes "app") (codes "app") then none else lookup (codes "app") shelf.db))
unfolding lookup bytes_eq
uninstall_canonical-some_example =
    uninstall_canonical-some phone.base (codes "app")
      (with_files (codes "a.py" ∷ codes "b.py" ∷ [])) shelf (codes "b.py") (codes "app")
      shelf-Distinct refl

shelf-IsOwned : IsOwned shelf.db
unfolding insert has_collision sorted_names add_sorted text_lt bytes_eq
shelf-IsOwned =
    IsOwned-insert (codes "app") (with_files (codes "a.py" ∷ codes "b.py" ∷ []))
      ((codes "a.py", []) ∷ (codes "b.py", []) ∷ []) [] refl refl no_packages-IsOwned

install-IsOwned_example :
    IsOwned (install phone 3 (codes "Requests") none (codes "stable") [] shelf).1.db
install-IsOwned_example =
    install-IsOwned phone 3 (codes "Requests") none (codes "stable") [] shelf shelf-IsOwned

-- The index requires `six` alone.
abbrev names : List Text
names = codes "app" ∷ codes "six" ∷ []

names-canonical :
    (name : Text)
    → has_id name names ≡ true
    → Holds (λ n. has_id n names ≡ true) (canonicalize name)
unfolding has_id bytes_eq canonicalize is_name dashed lower strip all_chars
names-canonical name h = elim (Bool-cases (bytes_eq (codes "app") name)) [
  | inl is_app ↦
      subst (λ n. Holds (λ n. has_id n names ≡ true) (canonicalize n))
        ((bytes_eq_iff (codes "app") name).0 is_app) refl
  | inr not_app ↦
      let is_six : bytes_eq (codes "six") name ≡ true = ground (arith, h, not_app) in
      subst (λ n. Holds (λ n. has_id n names ≡ true) (canonicalize n))
        ((bytes_eq_iff (codes "six") name).0 is_six) refl
]

index-required :
    (name : Text) (version : Option Text) (channel : Text)
    → Holds (AreKnown names) (
        manifest_from_curated pypi name channel
        >>= or_pypi pypi name version
        >>= manifest_requirements pypi)
unfolding manifest_from_curated curated_in request_json or_pypi manifest_from_pypi universal_wheel
    get_default find_member get pypi_manifest manifest_requirements requirements_of ends_with_text
    has_id bytes_eq canonicalize is_name dashed lower strip all_chars starts_with is_truthy
index-required name none channel = (refl, tt)
index-required name (some []) channel = (refl, tt)
index-required name (some (c ∷ version)) channel = (refl, tt)

index-IsClosed : IsClosed phone names
unfolding resolve
index-IsClosed = record {
  canonical = names-canonical;
  required = λ name version channel. elim (Outcome-cases (canonicalize name)) [
    | inl (e, wrong) ↦ rw wrong tt
    | inr (n, right) ↦ rw right (index-required n version channel)
  ];
}

install-enough_example :
    install phone 3 (codes "App") none (codes "stable") [] shelf
    ≡ install phone 1000 (codes "App") none (codes "stable") [] shelf
unfolding canonicalize is_name dashed lower strip all_chars has_id bytes_eq
install-enough_example =
    install-enough phone names index-IsClosed 3 1000 (codes "App") none (codes "stable") [] shelf
      refl tt tt (ground arith) (ground arith)

-- An archive whose last member would leave the staging directory.
abbrev archive : List Member
archive =
    record { filename = codes "w/a.py"; is_dir = false; file_size = 3; content = 1 ∷ 2 ∷ 3 ∷ [] }
    ∷ record { filename = codes "w-1.dist-info/WHEEL"; is_dir = false; file_size = 0; content = [] }
    ∷ record {
      filename = codes "w-1.dist-info/RECORD";
      is_dir = false;
      file_size = 0;
      content = [];
    }
    ∷ record { filename = codes "w/../../x"; is_dir = false; file_size = 0; content = [] }
    ∷ []

extract-safe_members_example :
    Holds IsSafeWheel (safe_members archive)
    × (extract phone.staging archive
        ≡ (safe_members archive >>= λ members. returned (contents members)))
extract-safe_members_example = extract-safe_members phone.staging archive
