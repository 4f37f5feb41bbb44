-- ===== src/Logs/Socket/Outage.antt =====
-- A gateway that is away for a while: each socket closes before it has opened, and each attempt's timer
-- fires in its turn.
use mathlib.Core.List.{append-nil, append_assoc}
use clever_gate.Runs
use clever_gate.Prelude.{
  ℕ, zero, suc, ◌+◌, ◌*◌, ◌^◌, min, String, true, false, Option, none, some, List, [], ◌∷◌, ◌++◌,
  length, ◌≡◌, ◌≢◌, refl, ◌∙◌, sym, ap, subst, arith,
}
use clever_gate.Logs.Socket.{
  Connection, has_token, delay_of, connect, Event, closes, fires, step, run, start,
}
use clever_gate.Logs.Socket.Delays.{reconnects}

-- The number of the socket that the clean-up variable points to.
abbrev number : Option ℕ → ℕ
number none = 0
number (some id) = id

-- One failure: the socket closes with a code, and the timer that this sets fires.
abbrev pub failure : (token : Option String) (code : ℕ) → Connection → List Event
failure token code c = closes (number c.ws) code ∷ fires c.next_timer token ∷ []

-- One failure after another, one for each code.
abbrev pub outage : (token : Option String) → List ℕ → Connection → List Event
outage token [] c = []
outage token (code ∷ codes) c =
    failure token code c ++ outage token codes (run c (failure token code c))

-- None of the codes says that the token has expired.
abbrev pub AreOther : List ℕ → Type 0
AreOther [] = Unit
AreOther (code ∷ codes) = (code ≢ 1008) × AreOther codes

-- The pauses after so many failures: they double from one second, and are ten seconds at most.
abbrev pub pauses : (failures rounds : ℕ) → List ℕ
pauses failures zero = []
pauses failures (suc n) = min (1000 * 2 ^ failures) 10000 ∷ pauses (suc failures) n

-- The connection has one socket, the last that it opened, and nothing else is due.
abbrev IsUp : Connection → ℕ → Type 0
IsUp c id =
    (c.attached ≡ id ∷ [])
    × (c.ws ≡ some id)
    × (c.opened ≡ suc id)
    × (c.timers ≡ [])
    × (c.cancelled ≡ false)

failure_reconnects :
    (token : Option String) (code id : ℕ) (c : Connection)
    → code ≢ 1008
    → has_token token ≡ true
    → IsUp c id
    → let d = run c (failure token code c) in
      IsUp d (suc id)
      × (d.retry_count ≡ suc c.retry_count)
      × (d.delays ≡ c.delays ++ min (1000 * 2 ^ c.retry_count) 10000 ∷ [])
unfolding Runs.run delay_of
failure_reconnects token code id c n given (a, w, o, t, up) =
    let (a', w', o', t', up', r, d) = reconnects c id code token a t up n given in
    subst
      (λ k.
        let e = step (step c (closes k code)) (fires c.next_timer token) in
        IsUp e (suc id)
        × (e.retry_count ≡ suc c.retry_count)
        × (e.delays ≡ c.delays ++ min (1000 * 2 ^ c.retry_count) 10000 ∷ []))
      (sym (ap number w)) ((a' ∙ ap (λ k. k ∷ []) o, w' ∙ ap some o, o' ∙ ap suc o, t', up'), r, d)

outage_goes_on :
    (token : Option String) (codes : List ℕ) (id : ℕ) (c : Connection)
    → AreOther codes
    → has_token token ≡ true
    → IsUp c id
    → let d = run c (outage token codes c) in
      IsUp d (id + length codes) × (d.delays ≡ c.delays ++ pauses c.retry_count (length codes))
unfolding Runs.run
outage_goes_on token [] id c n given up =
    (subst (IsUp c) (omega arith) up, sym (append-nil c.delays))
outage_goes_on token (code ∷ codes) id c (n, ns) given up =
    let es = failure token code c in
    let d = run c es in
    let (up', r, delays) = failure_reconnects token code id c n given up in
    let (up'', more) = outage_goes_on token codes (suc id) d ns given up' in
    rw (Runs.run-append step c es (outage token codes d)) (
      subst (IsUp (run d (outage token codes d))) (omega arith) up'',
      more
          ∙ ap (λ l. l ++ pauses d.retry_count (length codes)) delays
          ∙ ap
              (λ k.
                (c.delays ++ min (1000 * 2 ^ c.retry_count) 10000 ∷ []) ++ pauses k (length codes))
              r
          ∙ append_assoc c.delays (min (1000 * 2 ^ c.retry_count) 10000 ∷ [])
              (pauses (suc c.retry_count) (length codes)),
    )

start-IsUp :
    (token : Option String)
    → has_token token ≡ true
    → IsUp (start token) 0 × ((start token).delays ≡ []) × ((start token).retry_count ≡ 0)
unfolding start connect
start-IsUp token given = ground arith

-- Where a token is stored, and none of the codes is 1008, a connection that never opens is tried again
-- after each of its failures: one socket for each, with nothing else left, and the pauses before them
-- double from one second up to ten.
pub outage_reconnects :
    (token : Option String) (codes : List ℕ)
    → has_token token ≡ true
    → AreOther codes
    → let c = run (start token) (outage token codes (start token)) in
      (c.attached ≡ length codes ∷ [])
      × (c.opened ≡ suc (length codes))
      × (c.timers ≡ [])
      × (c.delays ≡ pauses 0 (length codes))
outage_reconnects token codes given n =
    let (up, none_yet, at_first) = start-IsUp token given in
    let ((a, w, o, t, live), d) = outage_goes_on token codes 0 (start token) n given up in
    let n : 0 + length codes ≡ length codes = omega arith in
    (a ∙ ap (λ k. k ∷ []) n, o ∙ ap suc n, t, d ∙ rw (none_yet, at_first) refl)
