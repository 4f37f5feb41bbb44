-- ===== src/Logs/Follow.antt =====
-- frontend/app/(dashboard)/logs/page.tsx: the place of the terminal's view, and whether it follows
-- the newest log. The view keeps its place between 0 and the last at which it is filled; the browser
-- tells `handleScroll` of a move at some later time.
pub mod Laws
use clever_gate.Runs
use clever_gate.Prelude.{
  ℕ, ◌+◌, ◌-◌, Bool, true, false, List, [], ◌∷◌, nat_eq, ltb, min, if◌then◌else◌,
}

-- `autoScrollRef.current`, the measures of `scrollRef.current`, and whether a scroll event has yet to be
-- dispatched.
pub record View : Type 0 where
  pub following : Bool
  pub scroll_top : ℕ
  pub scroll_height : ℕ
  pub client_height : ℕ
  pub event_due : Bool

-- The last place of the view.
abbrev pub bottom : View → ℕ
bottom v = v.scroll_height - v.client_height

-- `scrollHeight - scrollTop - clientHeight < 50`
unfoldable pub handle_scroll : View → View
handle_scroll v = record v { following = ltb v.scroll_height (v.scroll_top + v.client_height + 50) }

-- The view is moved to a place, as far as it goes.
unfoldable pub scroll_to : ℕ → View → View
scroll_to top v =
    let moved : View = record v { scroll_top = min top (bottom v); event_due = true } in
    if nat_eq (min top (bottom v)) v.scroll_top then v else moved

-- `el.scrollTop = el.scrollHeight`
abbrev pub to_bottom : View → View
to_bottom v = scroll_to v.scroll_height v

-- The effect of a change of `logs`.
abbrev pub follow : View → View
follow v = let moved = to_bottom v in if v.following then moved else v

pub data Event : Type 0 where
  -- The user scrolls.
  scrolled : ℕ → Event
  -- The scroll event that is due is dispatched.
  dispatched : Event
  -- The rows that are shown change: the contents and the view have new heights.
  laid_out : (scroll_height client_height : ℕ) → Event
  -- The effect of `[logs]` runs.
  effect_runs : Event
  switched : Bool → Event
  snapped : Event

abbrev pub switch_to : Bool → View → View
switch_to true v = to_bottom (record v { following = true })
switch_to false v = record v { following = false }

abbrev pub dispatch : View → View
dispatch v =
    let told = handle_scroll (record v { event_due = false }) in if v.event_due then told else v

unfoldable pub step : View → Event → View
unfolding scroll_to handle_scroll
step v (scrolled top) = scroll_to top v
step v dispatched = dispatch v
step v (laid_out h c) = scroll_to v.scroll_top (record v { scroll_height = h; client_height = c })
step v effect_runs = follow v
step v (switched b) = switch_to b v
step v snapped = switch_to true v

abbrev pub run : View → List Event → View
run = Runs.run step
