-- ===== src/Api/Concurrent/Progress.antt =====
-- How much calls that run at the same time send, and that each of them ends.
use clever_gate.Runs
use clever_gate.Runs.{run-keeps}
use clever_gate.Prelude.{
  ℕ, zero, suc, ◌+◌, ◌-◌, ◌*◌, ◌≤◌, ◌<◌, String, Bool, true, false, Option, none, some, List, [],
  ◌∷◌, ◌≡◌, refl, ap, arith, Bool-cases, inl, inr, length, length-append, nat_eq, if◌then◌else◌,
  truthy,
}
use clever_gate.Json.{Json}
use clever_gate.Api.{Env, World, Reply, Result, get_access_token, get_refresh_token}
use clever_gate.Api.Laws.{use_refresh_reply_sent}
use clever_gate.Api.Client.{
  use_refresh_reply, is_unauthorized, refresh_request, first_request, request_of, authorize,
  headers_of,
}
use clever_gate.Api.Concurrent.{
  Phase, asking, refreshing, repeating, settled, Call, Client, Event, begins, replies, logs_in,
  logs_out, ask_refresh, after_refresh, resume, reply_to, step, run, idle,
}
use clever_gate.Api.Concurrent.Counts.{
  due, left, left_all, left_all-snoc, length-send, count_begins, all_requests, due_at,
  count_replies, due_at-snoc, due_at-le, outcome_at, due_at-outcome,
}

-- What a step of one call does to both counts.
abbrev Goes : Phase → World → Call × World → Type 0
Goes p w (d, v) =
    (due d.phase ≤ due p - 1) × (length v.sent + left d.phase ≤ length w.sent + left p)

module _ (env : Env) where
  ask_refresh-Goes :
      (t : Option String) (r : Reply) (c : Call) (w : World)
      → Goes asking w (ask_refresh env t r c w)
  ask_refresh-Goes none r c w = omega arith
  ask_refresh-Goes (some t) r c w = elim (Bool-cases (truthy t)) [
    | inl full ↦ rw full (omega arith, omega (arith, length-send (refresh_request env t) w))
    | inr empty ↦ rw empty omega arith
  ]

  after_refresh-Goes :
      (p : Bool × World) (first : Reply) (c : Call) (w : World)
      → p.1.sent ≡ w.sent
      → Goes (refreshing first) w (after_refresh env p first c)
  after_refresh-Goes (true, v) first c w same =
      let again =
        request_of env c.path c.options (authorize (get_access_token env v.storage) c.headers) in
      let longer = length-send again v in let equal = ap length same in omega arith
  after_refresh-Goes (false, v) first c w same = let equal = ap length same in omega arith

  resume-Goes :
      (p : Phase) (r : Reply) (c : Call) (w : World) → c.phase ≡ p → Goes p w (resume env p r c w)
  unfolding resume
  resume-Goes asking r c w e = elim (Bool-cases (is_unauthorized r)) [
    | inl refused ↦ rw refused (ask_refresh-Goes (get_refresh_token env w.storage) r c w)
    | inr other ↦ rw other omega arith
  ]
  resume-Goes (refreshing first) r c w e =
      after_refresh-Goes (use_refresh_reply env r w) first c w (use_refresh_reply_sent env r w)
  resume-Goes repeating r c w e = omega arith
  resume-Goes (settled outcome) r c w e = rw e omega arith

  reply_to-sent :
      (n : ℕ) (r : Reply) (cs : List Call) (w : World)
      → let (ds, v) = reply_to env n r cs w in
        length v.sent + left_all ds ≤ length w.sent + left_all cs
  unfolding reply_to
  reply_to-sent n r [] w = omega arith
  reply_to-sent zero r (c ∷ cs) w = let (d, s) = resume-Goes c.phase r c w refl in omega arith
  reply_to-sent (suc n) r (c ∷ cs) w = omega (arith, reply_to-sent n r cs w)

  run-all_requests :
      (s : Client) (es : List Event)
      → all_requests (run env s es) ≤ all_requests s + 3 * count_begins es
  unfolding Runs.run step
  run-all_requests s [] = omega arith
  run-all_requests s (begins path o ∷ es) =
      let own = first_request env path o s.world in
      let c : Call = record {
        path = path;
        options = o;
        headers = headers_of env o s.world;
        phase = asking;
      } in
      let rest = run-all_requests (step env s (begins path o)) es in
      let grown = length-send own s.world in let joined = left_all-snoc s.calls c in omega arith
  run-all_requests s (replies n r ∷ es) =
      let rest = run-all_requests (step env s (replies n r)) es in
      let sent = reply_to-sent n r s.calls s.world in omega arith
  run-all_requests s (logs_in access refresh ∷ es) =
      run-all_requests (step env s (logs_in access refresh)) es
  run-all_requests s (logs_out ∷ es) = run-all_requests (step env s logs_out) es

  reply_to-length :
      (n : ℕ) (r : Reply) (cs : List Call) (w : World)
      → length (reply_to env n r cs w).0 ≡ length cs
  unfolding reply_to
  reply_to-length n r [] w = refl
  reply_to-length zero r (c ∷ cs) w = refl
  reply_to-length (suc n) r (c ∷ cs) w = ap suc (reply_to-length n r cs w)

  -- A reply takes the call that it is for one step on, and leaves the others.
  reply_to-due_at :
      (n m : ℕ) (r : Reply) (cs : List Call) (w : World)
      → due_at n (reply_to env m r cs w).0 ≤ due_at n cs - (if nat_eq n m then 1 else 0)
  unfolding reply_to
  reply_to-due_at n m r [] w = omega arith
  reply_to-due_at zero zero r (c ∷ cs) w = (resume-Goes c.phase r c w refl).0
  reply_to-due_at zero (suc m) r (c ∷ cs) w =
      let other : nat_eq 0 (suc m) ≡ false = ground arith in rw other (omega arith)
  reply_to-due_at (suc n) zero r (c ∷ cs) w =
      let other : nat_eq (suc n) 0 ≡ false = ground arith in rw other (omega arith)
  reply_to-due_at (suc n) (suc m) r (c ∷ cs) w =
      let same : nat_eq (suc n) (suc m) ≡ nat_eq n m = ground arith in
      rw same (reply_to-due_at n m r cs w)

  run-due_at :
      (n : ℕ) (s : Client) (es : List Event)
      → n < length s.calls
      → due_at n (run env s es).calls ≤ due_at n s.calls - count_replies n es
  unfolding Runs.run step
  run-due_at n s [] h = omega arith
  run-due_at n s (begins path o ∷ es) h =
      let c : Call = record {
        path = path;
        options = o;
        headers = headers_of env o s.world;
        phase = asking;
      } in
      let longer = length-append s.calls (c ∷ []) in
      let same = due_at-snoc n s.calls c h in
      let rest = run-due_at n (step env s (begins path o)) es (omega arith) in omega arith
  run-due_at n s (replies m r ∷ es) h =
      let same = reply_to-length m r s.calls s.world in
      let gone_on = reply_to-due_at n m r s.calls s.world in
      let rest = run-due_at n (step env s (replies m r)) es (omega arith) in
      elim (Bool-cases (nat_eq n m)) [
        | inl own ↦ rw own (let g = rw own at gone_on in omega arith)
        | inr other ↦ rw other (let g = rw other at gone_on in omega arith)
      ]
  run-due_at n s (logs_in access refresh ∷ es) h =
      run-due_at n (step env s (logs_in access refresh)) es h
  run-due_at n s (logs_out ∷ es) h = run-due_at n (step env s logs_out) es h

  step-length :
      (k : ℕ) (t : Client) (e : Event) → k ≤ length t.calls → k ≤ length (step env t e).calls
  unfolding step
  step-length k t (begins path o) h = omega (arith, length-append t.calls _)
  step-length k t (replies n r) h = omega (arith, reply_to-length n r t.calls t.world)
  step-length k t (logs_in access refresh) h = h
  step-length k t logs_out h = h

  -- However calls run into each other, a client that starts without calls sends at most three
  -- requests for each call that is begun; and a call has its outcome once three replies have come
  -- for it, whatever comes in between.
  pub run_progress :
      (w : World) (before after : List Event) (n : ℕ)
      → n < length (run env (idle w) before).calls
      → 3 ≤ count_replies n after
      → let s = run env (idle w) before in
        (length s.world.sent ≤ length w.sent + 3 * count_begins before)
        × ((o : Result (Option Json)) × (outcome_at n (run env s after).calls ≡ some o))
  run_progress w before after n h enough =
      let s = run env (idle w) before in
      let t = run env s after in
      let all = run-all_requests (idle w) before in
      let still = run-due_at n s after h in
      let most = due_at-le n s.calls in
      let there =
        run-keeps (step env) (λ u. length s.calls ≤ length u.calls) (step-length (length s.calls)) s
          after (omega arith) in
      (omega arith, due_at-outcome n t.calls (omega arith) (omega arith))
