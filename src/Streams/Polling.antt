-- ===== src/Streams/Polling.antt =====
-- frontend/lib/sse.ts, `createPollingClient`: a fetch, then a pause, and again until it is stopped.
-- What the browser may do next is an event: a timer fires, a fetch settles, the owner stops it.
pub mod Laws
pub mod Refinement
use clever_gate.Runs
use clever_gate.Prelude.{
  ℕ, suc, ◌+◌, ◌-◌, ◌≡◌, Bool, true, false, not, ◌&&◌, Option, none, some, List, [], ◌∷◌, ◌++◌,
  nat_eq, if◌then◌else◌, any, keep_if,
}

-- `pending` are the timers that are set and have not fired, `timer` is the variable of that name,
-- `in_flight` counts the ticks that wait for `fetcher()`, and `delivered` is what `onData` got.
pub record Client {ℓ} (D : Type ℓ) : Type ℓ where
  pub active : Bool
  pub timer : ℕ
  pub next_id : ℕ
  pub pending : List ℕ
  pub in_flight : ℕ
  pub fetches : ℕ
  pub delivered : List D

-- A fetch settles with its data, or rejects; `stops` says that `onData` itself calls `stop`.
pub data Event {ℓ} (D : Type ℓ) : Type ℓ where
  fires : (id : ℕ) → Event D
  settles : (outcome : Option D) (stops : Bool) → Event D
  stop : Event D

-- `clearTimeout(id)`
abbrev pub remove : ℕ → List ℕ → List ℕ
remove id = keep_if (λ j. not (nat_eq j id))

module _ {ℓ} {D : Type ℓ} where
  abbrev pub set_timeout : Client D → Client D
  set_timeout c = record c {
    timer = c.next_id;
    next_id = suc c.next_id;
    pending = c.pending ++ c.next_id ∷ [];
  }

  -- The returned `stop`.
  abbrev pub stopped : Client D → Client D
  stopped c = record c { active = false; pending = remove c.timer c.pending }

  -- `tick` up to its `await`.
  abbrev pub tick : Client D → Client D
  tick c = if c.active then record c { in_flight = suc c.in_flight; fetches = suc c.fetches } else c

  abbrev pub on_data : Option D → Bool → Client D → Client D
  on_data none stops c = c
  on_data (some d) stops c =
      let got : Client D = record c { delivered = c.delivered ++ d ∷ [] } in
      if c.active then (if stops then stopped got else got) else c

  -- `tick` after its `await`.
  abbrev pub resume : Option D → Bool → Client D → Client D
  resume outcome stops c =
      let told = on_data outcome stops (record c { in_flight = c.in_flight - 1 }) in
      if told.active then set_timeout told else told

  unfoldable pub step : Client D → Event D → Client D
  step c (fires id) =
      if any (λ j. nat_eq j id) c.pending
      then tick (record c { pending = remove id c.pending })
      else c
  step c (settles outcome stops) = if nat_eq c.in_flight 0 then c else resume outcome stops c
  step c stop = stopped c

  abbrev pub run : Client D → List (Event D) → Client D
  run = Runs.run step

-- The client as `createPollingClient` returns it: its first timer is set.
unfoldable pub create {ℓ} : (D : Type ℓ) → Client D
create D = record {
  active = true;
  timer = 0;
  next_id = 1;
  pending = 0 ∷ [];
  in_flight = 0;
  fetches = 0;
  delivered = [];
}
