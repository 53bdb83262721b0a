-- ===== src/Zpip/Dispatch/Tests.antt =====
-- Searches and command lines at the index of Zpip/Tests, and the theorems at that input.
use zabawheels.Prelude.{
  true, false, none, some, List, [], ◌∷◌, Text, codes, starts_with, if◌then◌else◌,
}
use zabawheels.Prelude.Outcome.{returned}
use zabawheels.Prelude.Dict.{lookup}
use zabawheels.Prelude.Json.{Json, string, array, object, no_items, item, no_members, member}
use zabawheels.Zpip.Search.{Searcher, Candidate, curated, installed, consider_all}
use zabawheels.Zpip.Search.Best.{IsBest, consider_all-IsBest}
use zabawheels.Zpip.Dispatch.{Shell, Device, dispatch_all}
use zabawheels.Zpip.Install.{World}
use zabawheels.Zpip.Dispatch.History.{dispatch_all-IsOwned}
use zabawheels.Zpip.Install.Owned.{IsOwned}
use zabawheels.Zpip.Tests.{pypi, phone, shelf}

-- A searcher without network, whose cache file has one package.
abbrev offline : Searcher
offline = record {
  sources = pypi;
  to_lower = λ text. text;
  offline = true;
  cached = some (
      object (
        member (codes "packages")
          (object (
            member (codes "six")
              (object (member (codes "version") (string (codes "1.0")) no_members)) no_members))
          no_members));
  is_cache_writable = true;
  now = string (codes "0");
  is_fresh = λ j. some false;
}

-- Two candidates of one name, of which the second is lighter.
abbrev two_candidates : List Candidate
two_candidates =
    record { name = codes "six"; version = codes "1.0"; summary = []; source = installed }
    ∷ record { name = codes "six"; version = codes "2.0"; summary = []; source = curated }
    ∷ []

consider_all-IsBest_example :
    IsBest
      (λ text. text)
      (codes "six" ∷ [])
      shelf.db
      (codes "six")
      two_candidates
      (lookup
        (codes "six")
        (consider_all (λ text. text) (codes "six" ∷ []) shelf.db two_candidates []))
consider_all-IsBest_example =
    consider_all-IsBest (λ text. text) (codes "six" ∷ []) shelf.db (codes "six") two_candidates

-- An index with one wheel, which has one member, and a disk that takes it.
abbrev hex : Text
hex = codes "0000000000000000000000000000000000000000000000000000000000000000"

abbrev metadata : Json
metadata = object (
    member (codes "info") (object (member (codes "version") (string (codes "1.0")) no_members)) (
      member (codes "urls")
        (array (
          item
            (object (
              member (codes "filename") (string (codes "w-1.0-py3-none-any.whl")) (
                member (codes "url") (string (codes "https://files/w.whl")) (
                  member (codes "digests")
                    (object (member (codes "sha256") (string hex) no_members)) no_members))))
            no_items))
        no_members))

abbrev wired : World
wired = record phone {
  sources = record pypi {
    urlopen = λ url.
        if starts_with (codes "https://pypi") url
        then some (record { announced = 100; value = some metadata })
        else none;
  };
  fetch = λ url. some (record { announced = 1; chunks = (1 ∷ []) ∷ [] });
  sha256 = λ body. hex;
  infolist = λ body. returned (
      record { filename = codes "w.py"; is_dir = false; file_size = 1; content = 7 ∷ [] }
      ∷ record {
        filename = codes "w-1.dist-info/WHEEL";
        is_dir = false;
        file_size = 0;
        content = [];
      }
      ∷ record {
        filename = codes "w-1.dist-info/RECORD";
        is_dir = false;
        file_size = 0;
        content = [];
      }
      ∷ []);
}

abbrev shell_in : World → Shell
shell_in world = record {
  world = world;
  searcher = offline;
  split = λ command. some (codes "zpip" ∷ codes "install" ∷ command ∷ []);
  can_import = λ name. true;
  fuel = 10;
}

-- A wheel is installed while the index answers, and another is asked for when it no longer does.
abbrev commands : List (Shell × Text)
commands = (shell_in wired, codes "app") ∷ (shell_in phone, codes "lib") ∷ []

abbrev new_device : Device
new_device = record { store = record { disk = λ path. none; db = [] }; cached = none }

dispatch_all-IsOwned_example : IsOwned (dispatch_all commands new_device).store.db
dispatch_all-IsOwned_example = dispatch_all-IsOwned commands (λ path. none) none
