-- ===== src/Providers/Clone/Counter.antt =====
-- The loop for the first free counter ends, and ends at the first free one.
use clever_gate.Prelude.{
  ◌+◌, ℕ, zero, suc, ◌≤◌, ◌<◌, true, false, List, [], ◌∷◌, ◌≡◌, arith, nat_eq, leb, length,
  if◌then◌else◌, Bool-cases, inl, inr,
}
use clever_gate.Providers.Clone.{has, count_up, next_counter}

-- How many of the numbers are at least `n`.
at_least : ℕ → List ℕ → ℕ
at_least n [] = 0
at_least n (k ∷ ns) = if leb n k then suc (at_least n ns) else at_least n ns

at_least-suc : (n : ℕ) (ns : List ℕ) → at_least (suc n) ns ≤ at_least n ns
unfolding at_least
at_least-suc n [] = omega arith
at_least-suc n (k ∷ ns) = ground (arith, at_least-suc n ns)

at_least_falls : (n : ℕ) (ns : List ℕ) → has n ns ≡ true → at_least (suc n) ns < at_least n ns
unfolding at_least
at_least_falls n [] h = cc
at_least_falls n (k ∷ ns) h = ground (arith, at_least-suc n ns, at_least_falls n ns)

at_least-le-length : (n : ℕ) (ns : List ℕ) → at_least n ns ≤ length ns
unfolding at_least
at_least-le-length n [] = omega arith
at_least-le-length n (k ∷ ns) = ground (arith, at_least-le-length n ns)

pub record IsFirstFree (start : ℕ) (ns : List ℕ) (n : ℕ) : Type 0 where
  pub free : has n ns ≡ false
  pub above : start ≤ n
  pub first : (k : ℕ) → start ≤ k → k < n → has k ns ≡ true

count_up-IsFirstFree :
    (fuel n : ℕ) (ns : List ℕ) → at_least n ns < fuel → IsFirstFree n ns (count_up fuel n ns)
unfolding count_up
count_up-IsFirstFree zero n ns h = absurd (omega arith)
count_up-IsFirstFree (suc fuel) n ns h = elim (Bool-cases (has n ns)) [
  | inr free ↦
      rw free (record { free = free; above = omega arith; first = λ k l m. absurd (omega arith) })
  | inl used ↦
      let falls = at_least_falls n ns used in
      let v = count_up-IsFirstFree fuel (suc n) ns (omega arith) in
      rw used (record {
        free = v.free;
        above = let a = v.above in omega arith;
        first = λ k l m. elim (Bool-cases (nat_eq n k)) [
          | inl same ↦ ground arith
          | inr other ↦ v.first k (ground arith) m
        ];
      })
]

-- The loop ends at the first number from 1 on that is not in use.
pub next_counter-IsFirstFree : (ns : List ℕ) → IsFirstFree 1 ns (next_counter ns)
unfolding next_counter
next_counter-IsFirstFree ns =
    count_up-IsFirstFree (suc (length ns)) 1 ns (omega (arith, at_least-le-length 1 ns))

IsFirstFree-unique :
    (start : ℕ) (ns : List ℕ) (a b : ℕ) → IsFirstFree start ns a → IsFirstFree start ns b → a ≡ b
IsFirstFree-unique start ns a b v w = ground (arith, v.first b, w.first a)

count_up-le : (fuel n : ℕ) (ns : List ℕ) → count_up fuel n ns ≤ n + at_least n ns
unfolding count_up
count_up-le zero n ns = omega arith
count_up-le (suc fuel) n ns = ground (arith, at_least_falls n ns, count_up-le fuel (suc n) ns)

next_counter-le : (ns : List ℕ) → next_counter ns ≤ 1 + at_least 1 ns
unfolding next_counter
next_counter-le ns = count_up-le (suc (length ns)) 1 ns

-- The loop for the first free counter ends by its test, since a number that is not in use is
-- reached within one round more than there are numbers in use; more rounds change nothing.
pub next_counter_ends :
    (ns : List ℕ) (fuel : ℕ)
    → length ns < fuel
    → (count_up fuel 1 ns ≡ next_counter ns)
      × (has (next_counter ns) ns ≡ false)
      × (next_counter ns ≤ length ns + 1)
next_counter_ends ns fuel h =
    let v = next_counter-IsFirstFree ns in
    (
      IsFirstFree-unique 1 ns (count_up fuel 1 ns) (next_counter ns)
          (count_up-IsFirstFree fuel 1 ns (omega (arith, at_least-le-length 1 ns))) v,
      v.free,
      bound,
    )
  where
    bound : next_counter ns ≤ length ns + 1
    bound = let reached = next_counter-le ns in omega (arith, at_least-le-length 1 ns)
