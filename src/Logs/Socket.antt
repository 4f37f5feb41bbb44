-- ===== src/Logs/Socket.antt =====
-- frontend/app/(dashboard)/logs/page.tsx: the live connection and how it reconnects. The effect
-- runs once for each time that the page enters live mode; what the browser does next is an event.
pub mod Laws
pub mod Delays
pub mod Outage
pub mod Refresh
use clever_gate.Runs
use clever_gate.Prelude.{
  ℕ, suc, zero, ◌+◌, ◌-◌, ◌*◌, ◌^◌, min, String, Bool, true, false, not, ◌&&◌, ◌||◌, Option, none,
  some, List, [], ◌∷◌, ◌++◌, ◌≡◌, refl, any, keep_if, nat_eq, truthy, if◌then◌else◌,
}

-- `attached` are the sockets whose `onclose` is set and that are not closed, `ws` the variable of
-- that name; `timers` are the timers that are set, `reconnect_timer` the variable; `refreshing`
-- counts the close handlers that wait for a refresh. `opened` counts `new WebSocket`, and `delays`
-- are the pauses that were asked for.
pub record Connection : Type 0 where
  pub cancelled : Bool
  pub connected : Bool
  pub retry_count : ℕ
  pub ws : Option ℕ
  pub attached : List ℕ
  pub reconnect_timer : Option ℕ
  pub timers : List ℕ
  pub next_timer : ℕ
  pub refreshing : ℕ
  pub opened : ℕ
  pub delays : List ℕ

-- `if (!token) return`
abbrev pub has_token : Option String → Bool
has_token none = false
has_token (some t) = truthy t

-- `connect` with the access token that is stored at the time.
unfoldable pub connect : Option String → Connection → Connection
connect token c =
    if c.cancelled
    then c
    else if has_token token
    then record c {
      ws = some c.opened;
      attached = c.attached ++ c.opened ∷ [];
      opened = suc c.opened;
    }
    else c

-- `Math.min(1000 * Math.pow(2, retryCount), 10000)`
unfoldable pub delay_of : ℕ → ℕ
delay_of retry_count = min (1000 * 2 ^ retry_count) 10000

-- The end of the close handler: the next attempt is timed.
unfoldable pub schedule : Connection → Connection
schedule c = record c {
  delays = c.delays ++ delay_of c.retry_count ∷ [];
  retry_count = suc c.retry_count;
  reconnect_timer = some c.next_timer;
  timers = c.timers ++ c.next_timer ∷ [];
  next_timer = suc c.next_timer;
}

abbrev pub without : ℕ → List ℕ → List ℕ
without id = keep_if (λ j. not (nat_eq j id))

abbrev pub is_in : ℕ → List ℕ → Bool
is_in id = any (λ j. nat_eq j id)

-- `onclose` up to its `await`, for a close code.
unfoldable pub on_close : ℕ → Connection → Connection
unfolding schedule
on_close code c =
    let closed : Connection = record c { connected = false } in
    if c.cancelled
    then closed
    else if nat_eq code 1008
    then record closed { refreshing = suc c.refreshing }
    else schedule closed

-- `onclose` after its `await`: the refresh gave a token, or none.
unfoldable pub on_refreshed : Option String → Connection → Connection
unfolding schedule
on_refreshed token c =
    let back : Connection = record c { refreshing = c.refreshing - 1 } in
    if c.cancelled
    then back
    else if has_token token
    then schedule (record back { retry_count = 0 })
    else back

abbrev clear_timer : Option ℕ → List ℕ → List ℕ
clear_timer none ts = ts
clear_timer (some t) ts = without t ts

abbrev detach : Option ℕ → List ℕ → List ℕ
detach none ss = ss
detach (some s) ss = without s ss

-- What the effect returns: it runs when the page leaves live mode or goes away.
unfoldable pub cleanup : Connection → Connection
cleanup c = record c {
  cancelled = true;
  timers = clear_timer c.reconnect_timer c.timers;
  attached = detach c.ws c.attached;
}

pub data Event : Type 0 where
  opens : (id : ℕ) → Event
  fails : (id : ℕ) → Event
  closes : (id code : ℕ) → Event
  refreshes : (token : Option String) → Event
  fires : (timer : ℕ) (token : Option String) → Event
  leaves : Event

unfoldable pub step : Connection → Event → Connection
unfolding on_close on_refreshed connect cleanup
step c (opens id) =
    if is_in id c.attached then record c { connected = true; retry_count = 0 } else c
step c (fails id) = if is_in id c.attached then record c { connected = false } else c
step c (closes id code) =
    if is_in id c.attached then on_close code (record c { attached = without id c.attached }) else c
step c (refreshes token) = if nat_eq c.refreshing 0 then c else on_refreshed token c
step c (fires timer token) =
    if is_in timer c.timers then connect token (record c { timers = without timer c.timers }) else c
step c leaves = cleanup c

abbrev pub run : Connection → List Event → Connection
run = Runs.run step

-- The effect's variables before its own first call of `connect`.
abbrev pub fresh : Connection
fresh = record {
  cancelled = false;
  connected = false;
  retry_count = 0;
  ws = none;
  attached = [];
  reconnect_timer = none;
  timers = [];
  next_timer = 0;
  refreshing = 0;
  opened = 0;
  delays = [];
}

unfoldable pub start : Option String → Connection
unfolding connect
start token = connect token fresh
