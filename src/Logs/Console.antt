-- ===== src/Logs/Console.antt =====
-- frontend/app/(dashboard)/logs/page.tsx: the page's state together with its connections. Each time
-- that the page enters live mode the effect starts a connection of its own; each time that it leaves
-- live mode the clean-up of the current one runs. What the browser still has to tell an earlier
-- connection may come later.
pub mod Laws
pub mod Buffer
use clever_gate.Runs
use clever_gate.Prelude.{
  ℕ, zero, suc, String, Bool, true, false, Option, none, some, List, [], ◌∷◌, if◌then◌else◌,
}
use clever_gate.Json.{Json}
use clever_gate.Logs.Page
use clever_gate.Logs.Page.{Page, Mode, live, history}
use clever_gate.Logs.Socket
use clever_gate.Logs.Socket.{Connection, start, cleanup, is_in}

-- The connection of the live mode, and those that were cleaned up.
pub record Links : Type 0 where
  pub current : Option Connection
  pub gone : List Connection

pub record Console : Type 0 where
  pub page : Page
  pub links : Links

-- `return () => { cancelled = true; ... }`
abbrev pub retire : Links → Option Connection → Links
retire l none = l
retire l (some c) = record { current = none; gone = cleanup c ∷ l.gone }

-- The effect of `[mode]`: nothing unless the mode has changed. `token` is the access token that is
-- stored at the time.
abbrev pub sync : (before after : Mode) → (token : Option String) → Links → Links
sync live live token l = l
sync live history token l = retire l l.current
sync history live token l = record { current = some (start token); gone = l.gone }
sync history history token l = l

abbrev pub on_current : Socket.Event → Links → Option Connection → Links
on_current e l none = l
on_current e l (some c) = record l { current = some (Socket.step c e) }

-- The n-th of the connections that were cleaned up is told something.
unfoldable pub step_at : ℕ → Socket.Event → List Connection → List Connection
step_at n e [] = []
step_at zero e (c ∷ cs) = Socket.step c e ∷ cs
step_at (suc n) e (c ∷ cs) = c ∷ step_at n e cs

-- Whether the current connection has an open socket of that number.
abbrev pub hears : ℕ → Option Connection → Bool
hears id none = false
hears id (some c) = is_in id c.attached

-- The clean-up is not an event of its own: it follows the mode. A message comes by a socket.
pub data Event : Type 0 where
  user : (e : Page.Event) (token : Option String) → Event
  socket : Socket.Event → Event
  late : ℕ → Socket.Event → Event
  arrives : (id : ℕ) (text : String) → Event

abbrev is_message : Page.Event → Bool
is_message (Page.message text) = true
is_message e = false

abbrev is_leaving : Socket.Event → Bool
is_leaving Socket.leaves = true
is_leaving e = false

module _ (parse : String → Option Json) (uuid : ℕ → String) where
  abbrev pub page_step : Page.Event → Option String → Console → Console
  page_step e token c =
      let page = Page.step parse uuid c.page e in
      record { page = page; links = sync c.page.mode page.mode token c.links }

  unfoldable pub step : Console → Event → Console
  unfolding step_at
  step c (user e token) = if is_message e then c else page_step e token c
  step c (socket e) =
      if is_leaving e then c else record c { links = on_current e c.links c.links.current }
  step c (late n e) = record c {
    links = record { current = c.links.current; gone = step_at n e c.links.gone };
  }
  step c (arrives id text) =
      if hears id c.links.current
      then record c { page = Page.step parse uuid c.page (Page.message text) }
      else c

  abbrev pub run : Console → List Event → Console
  run = Runs.run step

-- The console as it is opened: in live mode, with its first connection.
unfoldable pub opened : Option String → Console
opened token = record {
  page = Page.initial;
  links = record { current = some (start token); gone = [] };
}
