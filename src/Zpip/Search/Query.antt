-- ===== src/Zpip/Search/Query.antt =====
-- The sources of a search, and `search` itself (app/zmux/zpip.py).
use zabawheels.Prelude.Outcome.{Outcome, raised, returned, ◌>>=◌}
use zabawheels.Prelude.Dict.{has_id}
use zabawheels.Prelude.Json.{
  Json, null, number, string, array, object, Members, no_members, member, members_of, find_member,
  is_truthy,
}
use zabawheels.Prelude.Int.{pos}
use zabawheels.Prelude.{
  Bool, false, not, ◌&&◌, ◌||◌, Option, none, some, List, [], ◌∷◌, ◌++◌, Text, codes, ltb, ◌==◌,
  if◌then◌else◌,
}
use zabawheels.Zpip.Names.{is_name}
use zabawheels.Zpip.Modules.{text_lt}
use zabawheels.Zpip.Catalog.{str_of, or_empty, get_default, catalog_url, endpoint, request_json}
use zabawheels.Zpip.Store.{Db}
use zabawheels.Zpip.Search.{
  Searcher, curated, pypi, installed, Status, live, cache, stale, unavailable, skipped, Candidate,
  Hit, tokens_from, norm, consider_all,
}

-- `value or other`
abbrev pub json_or : Json → Json → Json
json_or j other = if is_truthy j then j else other

-- A copy of the catalog, with what is known of it, and the cache file as it is left.
pub record Catalog : Type 0 where
  pub packages : Members
  pub status : Status
  pub cached : Option Json

-- `sorted(hits.values(), key=...)`: by rank and name.
unfoldable pub comes_before : Hit → Hit → Bool
comes_before h k = ltb h.rank k.rank || (h.rank == k.rank && text_lt h.entry.name k.entry.name)

unfoldable pub place_hit : Hit → List Hit → List Hit
place_hit h [] = h ∷ []
place_hit h (k ∷ hits) =
    let later = place_hit h hits in if comes_before k h then k ∷ later else h ∷ k ∷ hits

unfoldable pub sorted_hits : List Hit → List Hit
sorted_hits [] = []
sorted_hits (h ∷ hits) = place_hit h (sorted_hits hits)

abbrev pub values : List (Text × Hit) → List Hit
values [] = []
values ((key, h) ∷ hits) = h ∷ values hits

-- What `search` answers.
pub data Found : Type 0 where
  no_query : Found
  found : List Hit → Status → Status → Found

module _ (w : Searcher) where
  -- The age of the copy. `float` of a list or a dict raises a `TypeError`, which nothing catches.
  unfoldable pub age_status : Members → Json → Outcome (Members × Status)
  age_status packages (array js) = raised (codes "TypeError")
  age_status packages (object js) = raised (codes "TypeError")
  age_status packages fetched_at = elim (w.is_fresh fetched_at) [
    | none ↦ returned (no_members, unavailable)
    | some fresh ↦ returned (packages, if fresh then cache else stale)
  ]

  unfoldable pub cached_packages : Option Json → Json → Outcome (Members × Status)
  cached_packages (some (object packages)) file = do
    fetched_at ← get_default (codes "fetched_at") (number (pos 0)) file
    age_status packages (json_or fetched_at (number (pos 0)))
  cached_packages _ file = returned (no_members, unavailable)

  -- The cache file: a `dict` has packages or not, and of another value `get` is an `AttributeError`.
  unfoldable pub cached_catalog : Option Json → Outcome (Members × Status)
  cached_catalog none = returned (no_members, unavailable)
  cached_catalog (some (object js)) =
      cached_packages (find_member (codes "packages") js) (object js)
  cached_catalog (some _) = raised (codes "AttributeError")

  abbrev pub from_cache : Outcome (Members × Status) → Outcome Catalog
  from_cache (raised e) = raised e
  from_cache (returned (packages, status)) =
      returned (record { packages = packages; status = status; cached = w.cached })

  unfoldable pub live_packages : Option Json → Outcome Catalog
  live_packages (some (object packages)) = returned (record {
    packages = packages;
    status = live;
    cached =
        if w.is_cache_writable
        then some (
            object (
              member (codes "fetched_at") w.now
                (member (codes "packages") (object packages) no_members)))
        else w.cached;
  })
  live_packages _ = from_cache (cached_catalog w.cached)

  unfoldable pub live_catalog : Outcome Json → Outcome Catalog
  live_catalog (returned (object js)) = live_packages (find_member (codes "packages") js)
  live_catalog _ = from_cache (cached_catalog w.cached)

  -- `_fetch_curated_catalog`
  unfoldable pub fetch_curated_catalog : Outcome Catalog
  fetch_curated_catalog =
      if w.offline
      then from_cache (cached_catalog w.cached)
      else live_catalog (request_json w.sources (catalog_url w.sources))

  unfoldable pub probed : Text → Json → Outcome (Option Candidate)
  probed name metadata = do
    found_info ← get_default (codes "info") null metadata
    let info = or_empty found_info
    found_name ← get_default (codes "name") null info
    version ← get_default (codes "version") null info
    summary ← get_default (codes "summary") null info
    returned (
        some (record {
          name = str_of w.sources (json_or found_name (string name));
          version = str_of w.sources (json_or version (string []));
          summary = str_of w.sources (json_or summary (string []));
          source = pypi;
        }))

  -- `_probe_pypi`
  unfoldable pub probe_answer : Text → Outcome Json → Outcome (Option Candidate)
  probe_answer name (raised e) = returned none
  probe_answer name (returned metadata) = probed name metadata

  unfoldable pub probe_pypi : Text → Outcome (Option Candidate)
  probe_pypi name =
      probe_answer name (request_json w.sources (endpoint w.sources name none ++ codes "/json"))

  -- The manifest of a package of the catalog, if it is a `dict`, as a candidate.
  unfoldable pub curated_candidates : List (Text × Json) → List Candidate
  curated_candidates [] = []
  curated_candidates ((pkg_name, object js) ∷ packages) =
      record {
        name = str_of w.sources (or_else (find_member (codes "name") js) (string pkg_name));
        version =
            str_of w.sources
              (json_or (or_else (find_member (codes "version") js) null) (string []));
        summary =
            str_of w.sources
              (json_or (or_else (find_member (codes "summary") js) null) (string []));
        source = curated;
      }
      ∷ curated_candidates packages
    where
      or_else : Option Json → Json → Json
      or_else none other = other
      or_else (some j) other = j
  curated_candidates ((pkg_name, other) ∷ packages) = curated_candidates packages

  unfoldable pub installed_candidates : Db → List Candidate
  installed_candidates [] = []
  installed_candidates ((name, package_found) ∷ db) =
      record { name = name; version = package_found.version; summary = []; source = installed }
      ∷ installed_candidates db

  abbrev pub normed_keys : List (Text × Json) → List Text
  normed_keys [] = []
  normed_keys ((k, j) ∷ packages) = norm w.to_lower k ∷ normed_keys packages

  -- A single token that is a name, online, and not in the catalog, is looked up at PyPI.
  unfoldable pub is_probed : List Text → List (Text × Json) → Bool
  is_probed (token ∷ []) packages =
      is_name token && not w.offline && not (has_id (norm w.to_lower token) (normed_keys packages))
  is_probed _ packages = false

  abbrev pub probe_candidates : Option Candidate → List Candidate × Status
  probe_candidates none = ([], unavailable)
  probe_candidates (some c) = (c ∷ [], live)

  unfoldable pub probe : List Text → List (Text × Json) → Outcome (List Candidate × Status)
  probe [] packages = returned ([], skipped)
  probe (token ∷ tokens) packages =
      if is_probed (token ∷ tokens) packages
      then (probe_pypi token >>= λ c. returned (probe_candidates c))
      else returned ([], skipped)

  -- All that `_consider` is called with, in the order of the calls.
  abbrev pub candidates : List (Text × Json) → Db → List Candidate → List Candidate
  candidates packages db probes = curated_candidates packages ++ installed_candidates db ++ probes

  unfoldable pub search_tokens : List Text → Db → Outcome (Found × Option Json)
  search_tokens tokens db = do
    catalog ← fetch_curated_catalog
    probes ← probe tokens (members_of catalog.packages)
    let all = candidates (members_of catalog.packages) db probes.0
    let hits = consider_all w.to_lower tokens db all []
    returned (found (sorted_hits (values hits)) catalog.status probes.1, catalog.cached)

  unfoldable pub search_from : List Text → Db → Outcome (Found × Option Json)
  search_from [] db = returned (no_query, w.cached)
  search_from (token ∷ tokens) db = search_tokens (token ∷ tokens) db

  -- `search`, with the cache file as it is left.
  unfoldable pub search : Text → Db → Outcome (Found × Option Json)
  search query db = search_from (tokens_from [] (w.to_lower query)) db
