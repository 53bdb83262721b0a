-- ===== src/Sessions/Tabs/Refinement.antt =====
-- The manager of app/zmux/sessions.py, run against the tab strip.
use mathlib.Core.Option.{some-injective}
use zabawheels.Prelude.{◌≡◌, refl, sym, ◌∙◌, subst, true, arith, none, some, List, [], ◌∷◌}
use zabawheels.Sessions.{SessionOps, Manager, new_manager, write_input, get_manager}
use zabawheels.Sessions.Valid.{IsValid}
use zabawheels.Sessions.Creating.{create-IsValid}
use zabawheels.Sessions.History.{
  Call, new, switch_to, close_tab, keys_typed, resized, perform, perform_all, new_manager-IsValid,
  perform-IsValid,
}
use zabawheels.Sessions.Tabs.{Bar, first_bar, follow, follow_all}
use zabawheels.Sessions.Tabs.Shown.{Shows, Shows-same, SameTabs-write_input, SameTabs-resize}
use zabawheels.Sessions.Tabs.Steps.{Shows-new, Shows-switch_to, Shows-renewed}
use zabawheels.Sessions.Tabs.Drops.{Shows-close_tab}

module _ (ops : SessionOps) where
  open ops use {Session}

  pub Shows-perform :
      (c : Call) (m : Manager Session) (b : Bar)
      → IsValid m
      → Shows m b
      → Shows (perform ops c m) (follow c b)
  Shows-perform (new activate) m b v s = Shows-new ops activate m b v s
  Shows-perform (switch_to id) m b v s = Shows-switch_to ops id m b v s
  Shows-perform (close_tab id) m b v s = Shows-close_tab ops id m b v s
  Shows-perform (keys_typed bytes) m b v s =
      unfold perform follow write_input in Shows-same (SameTabs-write_input ops bytes m.active m) s
  Shows-perform (resized columns lines) m b v s =
      unfold perform follow in Shows-same (SameTabs-resize ops columns lines m) s

  pub Shows-perform_all :
      (cs : List Call) (m : Manager Session) (b : Bar)
      → IsValid m
      → Shows m b
      → Shows (perform_all ops cs m) (follow_all cs b)
  unfolding perform_all follow_all
  Shows-perform_all [] m b v s = s
  Shows-perform_all (c ∷ cs) m b v s =
      Shows-perform_all cs (perform ops c m) (follow c b) (perform-IsValid ops c m v)
        (Shows-perform c m b v s)

  -- The first use of the manager.
  pub get_manager-first :
      (m : Manager Session) × (get_manager ops none ≡ some m) × IsValid m × Shows m first_bar
  unfolding get_manager
  get_manager-first =
      let (m, made, s) = Shows-renewed ops new_manager 0 refl refl refl in
      let (m', made', v, order) =
        create-IsValid ops true new_manager (new_manager-IsValid ops) (omega arith) in
      let same : m' ≡ m = some-injective m' m (sym made' ∙ made) in
      (m, made, subst IsValid same v, s)

  -- From the first use of the manager on, any calls that create, switch, close, type or resize leave it
  -- with the tabs, the tab on screen and the counter of a strip with a hand on one tab that follows the
  -- same calls: a new tab comes at the right end while there are fewer than eight, a switch moves the
  -- hand to a tab that is there, and closing the tab under the hand moves it to the right, at the right
  -- end to the left, and onto a fresh tab where none is left.
  pub manager-refines_strip :
      (calls : List Call)
      → (m : Manager Session) × (get_manager ops none ≡ some m)
        × Shows (perform_all ops calls m) (follow_all calls first_bar)
  manager-refines_strip calls =
      let (m, made, v, s) = get_manager-first in (m, made, Shows-perform_all calls m first_bar v s)
