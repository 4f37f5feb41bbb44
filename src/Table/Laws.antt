-- ===== src/Table/Laws.antt =====
-- Every row is on one of the pages, and no page is empty.
use clever_gate.Prelude.{ℕ, suc, ◌+◌, ◌-◌, ◌*◌, ◌/◌, ◌≤◌, ◌<◌, ◌≡◌, ◌↔◌, arith}
use native.Mathlib.Nat.{le-div_iff_mul-le, suc-mul}
use clever_gate.Table.{total_pages}

-- There is a page number k, counted from 0, exactly where some row is on it: where fewer than all
-- rows come before it. The table has rows, and pages of at least one row.
total_pages_iff :
    (total page_size k : ℕ)
    → 1 ≤ page_size
    → 1 ≤ total
    → (k < total_pages total page_size) ↔ (k * page_size < total)
unfolding total_pages
total_pages_iff total page_size k s t =
    let all = total + (page_size - 1) in
    let at_k = le-div_iff_mul-le {k = page_size} {x = suc k} {y = all} s in
    let at_0 = le-div_iff_mul-le {k = page_size} {x = 1} {y = all} s in
    let more = suc-mul k page_size in
    let some_page : 1 ≤ all / page_size = at_0.1 (omega arith) in
    let shown : total_pages total page_size ≡ all / page_size = ground arith in
    (
      λ h. let b = at_k.0 (omega arith) in omega (arith, more),
      λ h. let b = at_k.1 (omega (arith, more)) in omega arith,
    )
