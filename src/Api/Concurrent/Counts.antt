-- ===== src/Api/Concurrent/Counts.antt =====
-- Counts of the requests and replies of calls that run at the same time.
use clever_gate.Prelude.{
  ℕ, zero, suc, ◌+◌, ◌≤◌, ◌<◌, Option, none, some, List, [], ◌∷◌, ◌++◌, ◌≡◌, refl, arith, length,
  length-append, nat_eq, if◌then◌else◌,
}
use clever_gate.Json.{Json}
use clever_gate.Api.{World, Request, Result}
use clever_gate.Api.Concurrent.{
  Phase, asking, refreshing, repeating, settled, Call, Client, Event, begins, replies, logs_in,
  logs_out, send,
}

-- How many replies a call still waits for, and how many requests it may still send, at most.
abbrev pub due : Phase → ℕ
due asking = 3
due (refreshing first) = 2
due repeating = 1
due (settled outcome) = 0

abbrev pub left : Phase → ℕ
left asking = 2
left (refreshing first) = 1
left repeating = 0
left (settled outcome) = 0

abbrev pub left_all : List Call → ℕ
left_all [] = 0
left_all (c ∷ cs) = left c.phase + left_all cs

pub left_all-snoc :
    (cs : List Call) (c : Call) → left_all (cs ++ c ∷ []) ≡ left_all cs + left c.phase
left_all-snoc [] c = omega arith
left_all-snoc (d ∷ cs) c = omega (arith, left_all-snoc cs c)

pub length-send : (r : Request) (w : World) → length (send r w).sent ≡ length w.sent + 1
length-send r w = length-append w.sent (r ∷ [])

pub due-le : (p : Phase) → due p ≤ 3
due-le asking = omega arith
due-le (refreshing first) = omega arith
due-le repeating = omega arith
due-le (settled outcome) = omega arith

abbrev pub outcome_of : Phase → Option (Result (Option Json))
outcome_of (settled outcome) = some outcome
outcome_of p = none

pub due-outcome : (p : Phase) → due p ≡ 0 → (o : Result (Option Json)) × (outcome_of p ≡ some o)
due-outcome asking h = absurd (omega arith)
due-outcome (refreshing first) h = absurd (omega arith)
due-outcome repeating h = absurd (omega arith)
due-outcome (settled outcome) h = (outcome, refl)

-- How many calls the events begin.
abbrev pub count_begins : List Event → ℕ
count_begins [] = 0
count_begins (begins path o ∷ es) = suc (count_begins es)
count_begins (replies n r ∷ es) = count_begins es
count_begins (logs_in access refresh ∷ es) = count_begins es
count_begins (logs_out ∷ es) = count_begins es

-- The requests that were sent, and those that the calls may still send.
abbrev pub all_requests : Client → ℕ
all_requests s = length s.world.sent + left_all s.calls

-- How many replies the n-th call still waits for, at most.
abbrev pub due_at : ℕ → List Call → ℕ
due_at n [] = 0
due_at zero (c ∷ cs) = due c.phase
due_at (suc n) (c ∷ cs) = due_at n cs

abbrev pub count_replies : ℕ → List Event → ℕ
count_replies n [] = 0
count_replies n (begins path o ∷ es) = count_replies n es
count_replies n (replies m r ∷ es) =
    let rest = count_replies n es in if nat_eq n m then suc rest else rest
count_replies n (logs_in access refresh ∷ es) = count_replies n es
count_replies n (logs_out ∷ es) = count_replies n es

pub due_at-snoc :
    (n : ℕ) (cs : List Call) (c : Call) → n < length cs → due_at n (cs ++ c ∷ []) ≡ due_at n cs
due_at-snoc n [] c h = absurd (omega arith)
due_at-snoc zero (d ∷ cs) c h = refl
due_at-snoc (suc n) (d ∷ cs) c h = due_at-snoc n cs c (omega arith)

pub due_at-le : (n : ℕ) (cs : List Call) → due_at n cs ≤ 3
due_at-le n [] = omega arith
due_at-le zero (c ∷ cs) = due-le c.phase
due_at-le (suc n) (c ∷ cs) = due_at-le n cs

-- The outcome of the n-th call.
abbrev pub outcome_at : ℕ → List Call → Option (Result (Option Json))
outcome_at n [] = none
outcome_at zero (c ∷ cs) = outcome_of c.phase
outcome_at (suc n) (c ∷ cs) = outcome_at n cs

pub due_at-outcome :
    (n : ℕ) (cs : List Call)
    → n < length cs
    → due_at n cs ≡ 0
    → (o : Result (Option Json)) × (outcome_at n cs ≡ some o)
due_at-outcome n [] h d = absurd (omega arith)
due_at-outcome zero (c ∷ cs) h d = due-outcome c.phase d
due_at-outcome (suc n) (c ∷ cs) h d = due_at-outcome n cs (omega arith) d
