-- ===== src/Zpip/Search.antt =====
-- `zpip search` (app/zmux/zpip.py): `_fetch_curated_catalog`, `_probe_pypi` and `search`.
pub mod Query
pub mod Best
use zabawheels.Prelude.Outcome.{Outcome, raised, returned, ◌>>=◌}
use zabawheels.Prelude.Dict.{lookup, insert, has_id, keys}
use zabawheels.Prelude.Json.{
  Json, null, boolean, number, string, array, object, Members, no_members, member, members_of,
  find_member, is_truthy,
}
use zabawheels.Prelude.Int.{pos}
use zabawheels.Prelude.{
  ℕ, Bool, true, false, not, ◌&&◌, ◌||◌, Option, none, some, List, [], ◌∷◌, ◌++◌, map, Text, codes,
  bytes_eq, find, ltb, ◌==◌, length, if◌then◌else◌, is_empty,
}
use zabawheels.Zpip.Names.{is_name, is_lower, is_digit, dashed}
use zabawheels.Zpip.Modules.{text_lt}
use zabawheels.Zpip.Catalog.{
  Sources, str_of, or_empty, get_or_raise, get_default, catalog_url, endpoint, request_json,
}
use zabawheels.Zpip.Store.{Package, Db}

-- What `search` meets besides the sources: `str.lower`, the offline switch, the cache file's JSON (nothing if it
-- cannot be read), whether it can be written and with which time, and whether a time in it, as
-- Python's `float` reads it, is at most an hour ago (nothing if `float` raises a `ValueError`).
pub record Searcher : Type 0 where
  pub sources : Sources
  pub to_lower : Text → Text
  pub offline : Bool
  pub cached : Option Json
  pub is_cache_writable : Bool
  pub now : Json
  pub is_fresh : Json → Option Bool

-- `_QUERY_TOKEN`
abbrev pub is_token_start : ℕ → Bool
is_token_start c = is_lower c || is_digit c

abbrev pub is_token_char : ℕ → Bool
is_token_char c = is_token_start c || c == b'+' || c == b'.' || c == b'_' || c == b'-'

-- `_QUERY_TOKEN.findall(text)`, with the token that is being read.
unfoldable pub tokens_from : Text → Text → List Text
tokens_from [] [] = []
tokens_from (d ∷ token) [] = (d ∷ token) ∷ []
tokens_from [] (c ∷ text) =
    let within = tokens_from (c ∷ []) text in
    let between = tokens_from [] text in if is_token_start c then within else between
tokens_from (d ∷ token) (c ∷ text) =
    let within = tokens_from (d ∷ token ++ c ∷ []) text in
    let between = tokens_from [] text in if is_token_char c then within else (d ∷ token) ∷ between

-- `part in text`
unfoldable pub is_in : Text → Text → Bool
is_in part text = elim (find part text) [ none ↦ false | some i ↦ true ]

-- The sources of a hit, with `_SOURCE_PRIORITY`.
pub data Source : Type 0 where
  curated : Source
  pypi : Source
  installed : Source

abbrev pub priority : Source → ℕ
priority curated = 0
priority pypi = 1
priority installed = 2

pub data Status : Type 0 where
  live : Status
  cache : Status
  stale : Status
  unavailable : Status
  skipped : Status

-- What `_consider` is called with.
pub record Candidate : Type 0 where
  pub name : Text
  pub version : Text
  pub summary : Text
  pub source : Source

pub record Hit : Type 0 where
  pub rank : ℕ
  pub weight : ℕ
  pub entry : Candidate
  pub is_installed : Bool

-- `weight < (entry[0], entry[1])`
abbrev pub is_lighter : ℕ → ℕ → Hit → Bool
is_lighter r p h = ltb r h.rank || (r == h.rank && ltb p h.weight)

unfoldable pub is_better : ℕ → ℕ → Option Hit → Bool
is_better r p none = true
is_better r p (some h) = is_lighter r p h

module _ (to_lower : Text → Text) where
  -- `_norm`
  unfoldable pub norm : Text → Text
  norm name = dashed false (to_lower name)

  -- Every token stands in the name or in the summary.
  unfoldable pub all_match : List Text → Text → Text → Bool
  all_match [] norm_name summary = true
  all_match (token ∷ tokens) norm_name summary =
      (is_in (norm token) norm_name || is_in token summary) && all_match tokens norm_name summary

  unfoldable pub all_in_name : List Text → Text → Bool
  all_in_name [] norm_name = true
  all_in_name (token ∷ tokens) norm_name =
      is_in (norm token) norm_name && all_in_name tokens norm_name

  abbrev pub is_the_token : List Text → Text → Bool
  is_the_token (token ∷ []) norm_name = bytes_eq norm_name (norm token)
  is_the_token _ norm_name = false

  -- `_rank`
  unfoldable pub rank : List Text → Text → Text → Option ℕ
  rank tokens name summary =
      if not (all_match tokens (norm name) (to_lower summary))
      then none
      else if is_the_token tokens (norm name)
      then some 0
      else if all_in_name tokens (norm name)
      then some 1
      else some 2

  abbrev pub hit_of : Db → ℕ → Candidate → Hit
  hit_of db r c = record {
    rank = r;
    weight = priority c.source;
    entry = c;
    is_installed = has_id (norm c.name) (keys db);
  }

  -- `_consider`, from the candidate's rank.
  unfoldable pub consider_ranked : Option ℕ → Db → Candidate → List (Text × Hit) → List (Text × Hit)
  consider_ranked none db c hits = hits
  consider_ranked (some r) db c hits =
      if is_better r (priority c.source) (lookup (norm c.name) hits)
      then insert (norm c.name) (hit_of db r c) hits
      else hits

  -- `_consider`
  unfoldable pub consider : List Text → Db → Candidate → List (Text × Hit) → List (Text × Hit)
  consider tokens db c hits = consider_ranked (rank tokens c.name c.summary) db c hits

  unfoldable pub consider_all :
      List Text → Db → List Candidate → List (Text × Hit) → List (Text × Hit)
  consider_all tokens db [] hits = hits
  consider_all tokens db (c ∷ cs) hits = consider_all tokens db cs (consider tokens db c hits)
