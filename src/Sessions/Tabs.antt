-- ===== src/Sessions/Tabs.antt =====
-- What the tab strip of app/zmux/sessions.py promises: a row of tabs, and a hand on one of them.
pub mod Rows
pub mod Shown
pub mod Neighbour
pub mod Steps
pub mod Drops
pub mod Refinement
use mathlib.Core.Option
use zabawheels.Prelude.Decimal.{str}
use zabawheels.Prelude.Int.{ℤ}
use zabawheels.Prelude.Dict.{has_id}
use zabawheels.Prelude.{
  ℕ, ◌+◌, Bool, true, false, Option, none, some, List, [], ◌∷◌, ◌++◌, Bytes, Text, bytes_eq, length,
  leb, if◌then◌else◌,
}
use zabawheels.Sessions.{max_sessions}
use zabawheels.Sessions.History.{Call, new, switch_to, close_tab, keys_typed, resized}

-- The tabs to the left of the hand, the nearest first, the tab under it, and those to its right.
pub record Strip : Type 0 where
  pub left : List Text
  pub here : Text
  pub right : List Text

-- The strip, and how many ids have been given out.
pub record Bar : Type 0 where
  pub strip : Strip
  pub given_out : ℕ

-- The row `xs` is laid on `ys` from its nearest end.
unfoldable pub onto : List Text → List Text → List Text
onto [] ys = ys
onto (x ∷ xs) ys = onto xs (x ∷ ys)

-- The strip as it is read, from left to right.
abbrev pub row : Strip → List Text
row s = onto s.left (s.here ∷ s.right)

-- The row `xs` with every `id` taken out.
unfoldable pub except : Text → List Text → List Text
except id [] = []
except id (x ∷ xs) = let rest = except id xs in if bytes_eq x id then rest else x ∷ rest

-- The hand goes along `xs` to the first `id`, past the tabs `left`.
unfoldable pub seek : Text → List Text → List Text → Option Strip
seek id left [] = none
seek id left (x ∷ xs) =
    let further = seek id (x ∷ left) xs in
    if bytes_eq x id then some (record { left = left; here = x; right = xs }) else further

abbrev pub or_stay : Option Strip → Strip → Strip
or_stay none s = s
or_stay (some s') s = s'

-- A new tab goes to the right end; the hand goes with it, or stays.
abbrev pub add_tab : Bool → Text → Strip → Strip
add_tab true id s = record { left = onto (s.here ∷ s.right) s.left; here = id; right = [] }
add_tab false id s = record s { right = s.right ++ id ∷ [] }

-- A new tab has the next number for an id.
abbrev pub add_next : Bool → Bar → Bar
add_next activate b = record {
  strip = add_tab activate (str (b.given_out + 1)) b.strip;
  given_out = b.given_out + 1;
}

-- The tab under the hand goes: the hand goes to the right, at the right end to the left, and where no
-- tab is left a new one comes.
unfoldable pub drop_here : List Text → List Text → ℕ → Bar
drop_here left (y ∷ right) n = record {
  strip = record { left = left; here = y; right = right };
  given_out = n;
}
drop_here (y ∷ left) [] n = record {
  strip = record { left = left; here = y; right = [] };
  given_out = n;
}
drop_here [] [] n = record {
  strip = record { left = []; here = str (n + 1); right = [] };
  given_out = n + 1;
}

unfoldable pub drop_tab : Text → Bar → Bar
drop_tab id b =
    let s = b.strip in
    if bytes_eq s.here id
    then drop_here s.left s.right b.given_out
    else record b { strip = record s { left = except id s.left; right = except id s.right } }

-- One call, as a user of the tab strip sees it.
unfoldable pub follow : Call → Bar → Bar
follow (new activate) b = if leb max_sessions (length (row b.strip)) then b else add_next activate b
follow (switch_to id) b = record b { strip = or_stay (seek id [] (row b.strip)) b.strip }
follow (close_tab id) b = drop_tab id b
follow (keys_typed bytes) b = b
follow (resized columns lines) b = b

unfoldable pub follow_all : List Call → Bar → Bar
follow_all [] b = b
follow_all (c ∷ cs) b = follow_all cs (follow c b)

-- The strip that a user finds at first.
abbrev pub first_bar : Bar
first_bar = record { strip = record { left = []; here = str 1; right = [] }; given_out = 1 }
