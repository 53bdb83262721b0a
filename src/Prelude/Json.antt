-- ===== src/Prelude/Json.antt =====
-- The values of `json.loads` and of `yaml.safe_load`, with whole numbers only, and what the code does with them.
use mathlib.Core.Bool.{Bool, true, false, not}
use mathlib.Core.Option.{Option, none, some}
use mathlib.Core.List.{List, [], ◌∷◌}
use zabawheels.Prelude.Tests.{if◌then◌else◌, ◌==◌}
use zabawheels.Prelude.Lists.{is_empty}
use zabawheels.Prelude.Buffers.{bytes_eq}
use zabawheels.Prelude.Chars.{Text}
use zabawheels.Prelude.Int.{ℤ, pos, negsuc}

mutual
  pub data Json : Type 0 where
    null : Json
    boolean : Bool → Json
    number : ℤ → Json
    string : Text → Json
    array : Items → Json
    object : Members → Json

  pub data Items : Type 0 where
    no_items : Items
    item : Json → Items → Items

  pub data Members : Type 0 where
    no_members : Members
    member : Text → Json → Members → Members

abbrev pub items_of : Items → List Json
items_of no_items = []
items_of (item j js) = j ∷ items_of js

abbrev pub members_of : Members → List (Text × Json)
members_of no_members = []
members_of (member k j js) = (k, j) ∷ members_of js

-- `members.get(key)`
unfoldable pub find_member : Text → Members → Option Json
find_member key no_members = none
find_member key (member k j js) = if bytes_eq k key then some j else find_member key js

-- `value.get(key)`: `none` where the value is no `dict`, and has no such method.
unfoldable pub get : Text → Json → Option Json
get key (object js) = elim (find_member key js) [ none ↦ some null | some j ↦ some j ]
get key null = none
get key (boolean b) = none
get key (number n) = none
get key (string s) = none
get key (array js) = none

-- `key in value`, for a `dict`.
unfoldable pub has_member : Text → Json → Bool
has_member key (object js) = elim (find_member key js) [ none ↦ false | some j ↦ true ]
has_member key _ = false

abbrev pub is_object : Json → Bool
is_object (object js) = true
is_object _ = false

-- `bool(value)`
unfoldable pub is_truthy : Json → Bool
is_truthy null = false
is_truthy (boolean b) = b
is_truthy (number (pos n)) = not (n == 0)
is_truthy (number (negsuc n)) = true
is_truthy (string s) = not (is_empty s)
is_truthy (array no_items) = false
is_truthy (array (item j js)) = true
is_truthy (object no_members) = false
is_truthy (object (member k j js)) = true

-- `value == text`
unfoldable pub is_text : Text → Json → Bool
is_text text (string s) = bytes_eq s text
is_text text _ = false
