-- ===== src/Logs/Socket/Delays.antt =====
-- How long the connection waits before each attempt.
use clever_gate.Runs.{run-keeps}
use clever_gate.Prelude.{
  ℕ, suc, zero, ◌+◌, ◌^◌, ◌≤◌, String, true, false, Option, some, List, [], ◌∷◌, ◌++◌, ◌≡◌, refl,
  arith, ◌≢◌,
}
use native.Mathlib.Nat.{pow-suc, suc-add}
use clever_gate.Logs.Socket.{
  Connection, has_token, delay_of, schedule, Event, opens, fails, closes, refreshes, fires, leaves,
  step, run, start,
}

two_pow_pos : (n : ℕ) → 1 ≤ 2 ^ n
two_pow_pos zero = omega arith
two_pow_pos (suc n) = rw (pow-suc 2 n) (omega (arith, two_pow_pos n))

delay_of_bounds : (n : ℕ) → (1000 ≤ delay_of n) × (delay_of n ≤ 10000)
unfolding delay_of
delay_of_bounds n = (omega (arith, two_pow_pos n), omega arith)

-- From the fifth attempt on the pause is ten seconds.
two_pow_large : (n : ℕ) → 16 ≤ 2 ^ (n + 4)
two_pow_large zero = omega arith
two_pow_large (suc n) = rw (suc-add n 4, pow-suc 2 (n + 4)) (omega (arith, two_pow_large n))

-- The pauses double from one second, and are ten seconds from the fifth on.
pub delay_of-values :
    (delay_of 0 ≡ 1000)
    × (delay_of 1 ≡ 2000)
    × (delay_of 2 ≡ 4000)
    × (delay_of 3 ≡ 8000)
    × ((n : ℕ) → delay_of (n + 4) ≡ 10000)
unfolding delay_of
delay_of-values =
    (refl, refl, refl, refl, λ n. let big : 16 ≤ 2 ^ (n + 4) = two_pow_large n in omega arith)

abbrev pub Bounded : List ℕ → Type 0
Bounded [] = Unit
Bounded (d ∷ ds) = (1000 ≤ d) × (d ≤ 10000) × Bounded ds

Bounded-snoc : (ds : List ℕ) (n : ℕ) → Bounded ds → Bounded (ds ++ delay_of n ∷ [])
Bounded-snoc [] n b = let (lo, hi) = delay_of_bounds n in (lo, hi, tt)
Bounded-snoc (d ∷ ds) n (lo, hi, b) = (lo, hi, Bounded-snoc ds n b)

step-Bounded : (c : Connection) (e : Event) → Bounded c.delays → Bounded (step c e).delays
unfolding step schedule
step-Bounded c (opens id) b = ground arith
step-Bounded c (fails id) b = ground arith
step-Bounded c (closes id code) b = ground (arith, Bounded-snoc c.delays c.retry_count b)
step-Bounded c (refreshes token) b = ground (arith, Bounded-snoc c.delays 0 b)
step-Bounded c (fires timer token) b = ground arith
step-Bounded c leaves b = b

run-Bounded_from : (c : Connection) (es : List Event) → Bounded c.delays → Bounded (run c es).delays
run-Bounded_from = run-keeps step (λ c. Bounded c.delays) step-Bounded

start-delays : (token : Option String) → (start token).delays ≡ []
unfolding start
start-delays token = ground arith

-- Each pause before an attempt to reconnect is between one and ten seconds.
run-Bounded : (token : Option String) (es : List Event) → Bounded (run (start token) es).delays
run-Bounded token es = run-Bounded_from (start token) es (rw (start-delays token) tt)

-- When the one socket of a connection that is not cancelled and has no timer closes with another
-- code than 1008, the next attempt is timed with the pause for the failures so far; when its
-- timer fires with a token stored, a new socket is opened and the count of failures has gone up
-- by one.
pub reconnects :
    (c : Connection) (id code : ℕ) (token : Option String)
    → c.attached ≡ id ∷ []
    → c.timers ≡ []
    → c.cancelled ≡ false
    → code ≢ 1008
    → has_token token ≡ true
    → let d = step (step c (closes id code)) (fires c.next_timer token) in
      (d.attached ≡ c.opened ∷ [])
      × (d.ws ≡ some c.opened)
      × (d.opened ≡ suc c.opened)
      × (d.timers ≡ [])
      × (d.cancelled ≡ false)
      × (d.retry_count ≡ suc c.retry_count)
      × (d.delays ≡ c.delays ++ delay_of c.retry_count ∷ [])
unfolding step schedule
reconnects c id code token a t h n k = ground arith
