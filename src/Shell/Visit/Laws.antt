-- ===== src/Shell/Visit/Laws.antt =====
-- Who sees a page of the panel in the course of a visit.
use clever_gate.Runs
use clever_gate.Prelude.{
  String, Bool, true, false, Option, none, some, List, [], ◌∷◌, ◌≡◌, refl, ap, ◌∙◌, ◌⊎◌, inl, inr,
  arith, Bool-cases,
}
use clever_gate.Json.{Json}
use clever_gate.Api.{Env, ok}
use clever_gate.Auth.{has_user}
use clever_gate.Auth.Interleaved
use clever_gate.Shell.{blank, panel, redirect}
use clever_gate.Shell.Visit.{
  Visit, is_page, is_login, go_to, settle, Event, opening_ends, me_ends, login_page, not_found,
  inside, shown, move, step,
}

-- The event answers a call of `/me` of the session with this user.
abbrev pub Brings : Event → Option Json → Type 0
Brings (opening_ends r) user = r ≡ ok user
Brings (me_ends r) user = r ≡ ok user
Brings e user = ⊥

-- One of the events does.
abbrev pub OneBrings : List Event → Option Json → Type 0
OneBrings [] user = ⊥
OneBrings (e ∷ es) user = Brings e user ⊎ OneBrings es user

-- On a page under the layout nobody is missing once the opening is over.
abbrev IsPlaced : Visit → Type 0
IsPlaced v = is_page v.path ≡ true → v.provider.loading ≡ false → has_user v.provider.user ≡ true

go_to-provider : (to : Option String) (v : Visit) → (go_to to v).provider ≡ v.provider
go_to-provider none v = refl
go_to-provider (some to) v = refl

login_is_no_page : is_page "/login" ≡ false
unfolding is_page
login_is_no_page = refl

pub settle_away : (v : Visit) → is_page v.path ≡ false → settle v ≡ v
unfolding settle
settle_away v away = simp (away)

settle_here :
    (v : Visit)
    → is_page v.path ≡ true
    → settle v ≡ go_to (redirect v.provider.user v.provider.loading) v
unfolding settle
settle_here v here = simp (here)

pub settle-provider : (v : Visit) → (settle v).provider ≡ v.provider
settle-provider v = elim (Bool-cases (is_page v.path)) [
  | inl here ↦
      ap (λ w. w.provider) (settle_here v here)
      ∙ go_to-provider (redirect v.provider.user v.provider.loading) v
  | inr away ↦ ap (λ w. w.provider) (settle_away v away)
]

redirect_of_nobody :
    (user : Option Json) (loading : Bool)
    → loading ≡ false
    → has_user user ≡ false
    → redirect user loading ≡ some "/login"
unfolding redirect
redirect_of_nobody user loading l h = ground arith

-- Without a user, and when nothing is loading, no page under the layout stays.
pub settle_of_nobody :
    (v : Visit)
    → v.provider.loading ≡ false
    → has_user v.provider.user ≡ false
    → is_page (settle v).path ≡ false
settle_of_nobody v l nobody = elim (Bool-cases (is_page v.path)) [
  | inl here ↦
      ap (λ w. is_page w.path)
        (settle_here v here
          ∙ ap (λ to. go_to to v) (redirect_of_nobody v.provider.user v.provider.loading l nobody))
      ∙ login_is_no_page
  | inr away ↦ ap (λ w. is_page w.path) (settle_away v away) ∙ away
]

-- Where the user of a session comes from: it stays, it goes, or an event brings it.
abbrev IsFrom : Option Json → Event → Option Json → Type 0
IsFrom before e after = (after ≡ before) ⊎ ((after ≡ none) ⊎ Brings e after)

module _ (env : Env) where
  pub step-provider : (v : Visit) (e : Event) → (step env v e).provider ≡ (move env v e).provider
  unfolding step
  step-provider v e = settle-provider (move env v e)

-- What is drawn, after some events: a place outside the layout; nothing, while the opening waits for
-- `/me`; or the panel, and then there is a user whom one of the events has brought.
abbrev pub IsGuarded : List Event → Visit → Type 0
IsGuarded es v =
    ((shown v ≡ login_page) ⊎ (shown v ≡ not_found))
    ⊎ (((shown v ≡ inside blank) × (v.provider.loading ≡ true))
        ⊎ (((title : String) × (shown v ≡ inside (panel title)))
            × ((u : Json) × (v.provider.user ≡ some u) × OneBrings es (some u))))

pub shown_outside :
    (v : Visit) → is_page v.path ≡ false → (shown v ≡ login_page) ⊎ (shown v ≡ not_found)
unfolding shown
shown_outside v away = elim (Bool-cases (is_login v.path)) [
  | inl at_login ↦ inl (simp (away, at_login))
  | inr elsewhere ↦ inr (simp (away, elsewhere))
]
