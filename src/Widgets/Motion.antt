-- ===== src/Widgets/Motion.antt =====
-- frontend/components/anim.tsx: the choices of the animated parts, and the count-up of a number.
-- The library's `animate` is not modelled: the values that it hands to `onUpdate` are events.
use clever_gate.Prelude.{String, Bool, Option, none, some, ◌<>◌, if◌then◌else◌}
use clever_gate.Widgets.{if_text}

-- The two ways in which the parts of a section follow each other.
pub data Stagger : Type 0 where
  stagger_container stagger_container_slow : Stagger

unfoldable pub motion_section : (slow : Bool) → Stagger
motion_section slow = if slow then stagger_container_slow else stagger_container

-- The head of a page.
pub record PageHead : Type 0 where
  pub title : String
  pub description : Option String
  pub icon_shadow : String
  pub has_actions : Bool

unfoldable pub page_header :
    (icon_color title : String) (description : Option String) (has_actions : Bool) → PageHead
page_header icon_color title description has_actions = record {
  title = title;
  description = if_text description;
  icon_shadow = "0 6px 18px " <> icon_color <> "40";
  has_actions = has_actions;
}

-- A number that counts up: `display`, `prev.current`, and the ends of the animation under way.
pub record Counter (Number : Type 0) : Type 0 where
  pub display : Number
  pub prev : Number
  pub under_way : Option (Number × Number)

pub data CounterEvent (Number : Type 0) : Type 0 where
  value_changed : Number → CounterEvent Number
  updated : Number → CounterEvent Number
  unmounted : CounterEvent Number

module _ {Number : Type 0} where
  abbrev on_update : Option (Number × Number) → Number → Counter Number → Counter Number
  on_update none v c = c
  on_update (some ends) v c = record c { display = v }

  -- The effect of a change of `value` stops the animation that is under way.
  unfoldable pub step : Counter Number → CounterEvent Number → Counter Number
  step c (value_changed v) = record c { prev = v; under_way = some (c.prev, v) }
  step c (updated v) = on_update c.under_way v c
  step c unmounted = record c { under_way = none }

unfoldable pub initial : {Number : Type 0} → (zero value : Number) → Counter Number
initial zero value = record { display = zero; prev = value; under_way = some (zero, value) }

-- `format ? format(display) : Math.round(display).toLocaleString()`
unfoldable pub formatted :
    {Number : Type 0}
    → (locale : Number → String) → Option (Number → String)
    → Counter Number
    → String
formatted locale none c = locale c.display
formatted locale (some format) c = format c.display
