-- ===== src/Logs/Follow/Laws.antt =====
-- A view that follows the newest log.
use clever_gate.Runs.{Along, run-keeps_along}
use clever_gate.Prelude.{ℕ, ◌≡◌, refl, true, false, List, arith, inl, inr, Bool-cases}
use clever_gate.Logs.Follow.{
  View, Event, scrolled, dispatched, laid_out, effect_runs, switched, snapped, bottom, scroll_to,
  handle_scroll, to_bottom, follow, step, run,
}

-- The user neither scrolls nor turns the switch off, and a scroll event that is due is dispatched
-- before the heights change again.
abbrev pub IsCalm : View → Event → Type 0
IsCalm v (scrolled top) = ⊥
IsCalm v dispatched = Unit
IsCalm v (laid_out h c) = v.event_due ≡ false
IsCalm v effect_runs = Unit
IsCalm v (switched b) = b ≡ true
IsCalm v snapped = Unit

-- The view follows, and a scroll event that is due tells of a move to the bottom.
abbrev IsFollowing : View → Type 0
IsFollowing v = (v.following ≡ true) × (v.event_due ≡ true → v.scroll_top ≡ bottom v)

scroll_to-following : (top : ℕ) (v : View) → (scroll_to top v).following ≡ v.following
unfolding scroll_to
scroll_to-following top v = ground arith

to_bottom-scroll_top : (v : View) → (to_bottom v).scroll_top ≡ bottom v
unfolding scroll_to
to_bottom-scroll_top v = ground arith

to_bottom-bottom : (v : View) → bottom (to_bottom v) ≡ bottom v
unfolding scroll_to
to_bottom-bottom v = ground arith

to_bottom-IsFollowing : (v : View) → v.following ≡ true → IsFollowing (to_bottom v)
to_bottom-IsFollowing v f =
    let place = to_bottom-scroll_top v in
    let last = to_bottom-bottom v in
    let same = scroll_to-following v.scroll_height v in (cc, λ d. cc)

dispatch-IsFollowing : (v : View) → IsFollowing v → IsFollowing (step v dispatched)
unfolding step handle_scroll
dispatch-IsFollowing v (f, at_bottom) = elim (Bool-cases v.event_due) [
  | inr quiet ↦ simp quiet (f, λ d. cc)
  | inl due ↦ let place = at_bottom due in simp due (ground arith, λ d. cc)
]

laid_out-IsFollowing :
    (h c : ℕ) (v : View) → v.event_due ≡ false → IsFollowing v → IsFollowing (step v (laid_out h c))
unfolding step scroll_to
laid_out-IsFollowing h c v quiet (f, at_bottom) = (ground arith, ground arith)

follow_on : (v : View) → v.following ≡ true → follow v ≡ to_bottom v
follow_on v f = simp (f)

step-IsFollowing : (v : View) (e : Event) → IsCalm v e → IsFollowing v → IsFollowing (step v e)
unfolding step
step-IsFollowing v (scrolled top) c h = absurd c
step-IsFollowing v dispatched c h = dispatch-IsFollowing v h
step-IsFollowing v (laid_out h c) quiet f = laid_out-IsFollowing h c v quiet f
step-IsFollowing v effect_runs c (f, b) = simp (follow_on v f) (to_bottom-IsFollowing v f)
step-IsFollowing v (switched true) c h = to_bottom-IsFollowing (record v { following = true }) refl
step-IsFollowing v (switched false) c h = cc
step-IsFollowing v snapped c h = to_bottom-IsFollowing (record v { following = true }) refl

-- From the moment when the user snaps to the bottom the view follows the logs: the effect of each
-- change of them leaves it at its last place, whatever is laid out meanwhile. It is provided that
-- neither the user scrolls nor the switch is turned off, and that a scroll event is dispatched before
-- the heights change again.
pub run_snapped :
    (v : View) (es : List Event)
    → Along step IsCalm (step v snapped) es
    → let w = run (step v snapped) es in
      (w.following ≡ true) × ((step w effect_runs).scroll_top ≡ bottom w)
unfolding step
run_snapped v es calm =
    let w = run (step v snapped) es in
    let (f, b) =
      run-keeps_along step IsCalm IsFollowing step-IsFollowing (step v snapped) es calm
        (to_bottom-IsFollowing (record v { following = true }) refl) in
    (f, simp (follow_on w f) (to_bottom-scroll_top w))
