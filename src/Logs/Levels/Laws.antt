-- ===== src/Logs/Levels/Laws.antt =====
-- What the level toggles can make of the set of shown levels.

use clever_gate.Prelude.{
  text_tests, ℕ, ◌+◌, String, true, List, [], ◌∷◌, ◌≡◌, refl, ◌⊎◌, inl, inr, arith, length,
  Bool-cases, subst, sym,
}
use clever_gate.Logs.Levels.{
  levels, has, add, delete, add_all, toggle_level, Group, all, info, warning, error, is_all_active,
  is_error_active, toggle_level_group,
}
use clever_gate.Logs.Levels.Sets.{
  has-add, has-delete, IsDistinct, add-IsDistinct, delete-IsDistinct, bit, length-add,
  length-delete,
}

-- How many of the five levels a set has.
abbrev pub count_active : List String → ℕ
count_active s =
    bit (has "DEBUG" s)
    + bit (has "INFO" s)
    + bit (has "WARNING" s)
    + bit (has "ERROR" s)
    + bit (has "CRITICAL" s)

-- A set of levels: no element twice, and none but the five.
pub record IsLevelSet (s : List String) : Type 0 where
  pub distinct : IsDistinct s
  pub counted : length s ≡ count_active s
  pub within : (x : String) → has x s ≡ true → has x levels ≡ true

pub levels-IsLevelSet : IsLevelSet levels
unfolding has
levels-IsLevelSet = record {
  distinct = (refl, (refl, (refl, (refl, (refl, tt)))));
  counted = refl;
  within = λ x h. h;
}

-- One of the five names.
levels_cases :
    (x : String)
    → has x levels ≡ true
    → (x ≡ "DEBUG") ⊎ (x ≡ "INFO") ⊎ (x ≡ "WARNING") ⊎ (x ≡ "ERROR") ⊎ (x ≡ "CRITICAL")
unfolding has
levels_cases x h = grind text_tests

-- A statement about a level holds if it holds of each of the five.
pub at_levels {ℓ} :
    (P : String → Type ℓ)
    → P "DEBUG"
    → P "INFO"
    → P "WARNING"
    → P "ERROR"
    → P "CRITICAL"
    → (x : String) → has x levels ≡ true
    → P x
at_levels P d i w e c x h = elim (levels_cases x h) [
  | inl p ↦ subst P (sym p) d
  | inr (inl p) ↦ subst P (sym p) i
  | inr (inr (inl p)) ↦ subst P (sym p) w
  | inr (inr (inr (inl p))) ↦ subst P (sym p) e
  | inr (inr (inr (inr p))) ↦ subst P (sym p) c
]

count-add :
    (s : List String) (x : String)
    → has x levels ≡ true
    → count_active (add x s) + bit (has x s) ≡ count_active s + 1
count-add s =
    at_levels (λ x. count_active (add x s) + bit (has x s) ≡ count_active s + 1)
      (simp has-add (omega arith)) (simp has-add (omega arith)) (simp has-add (omega arith))
      (simp has-add (omega arith)) (simp has-add (omega arith))

count-delete :
    (s : List String) (x : String)
    → has x levels ≡ true
    → count_active (delete x s) + bit (has x s) ≡ count_active s
count-delete s =
    at_levels (λ x. count_active (delete x s) + bit (has x s) ≡ count_active s)
      (simp has-delete (omega arith)) (simp has-delete (omega arith))
      (simp has-delete (omega arith)) (simp has-delete (omega arith))
      (simp has-delete (omega arith))

add-IsLevelSet :
    (x : String) (s : List String) → has x levels ≡ true → IsLevelSet s → IsLevelSet (add x s)
add-IsLevelSet x s h v = record {
  distinct = add-IsDistinct x s v.distinct;
  counted = omega (arith, count-add s x h, length-add x s, v.counted);
  within = λ y k. grind (text_tests, has-add y x s, v.within y);
}

delete-IsLevelSet :
    (x : String) (s : List String) → has x levels ≡ true → IsLevelSet s → IsLevelSet (delete x s)
delete-IsLevelSet x s h v = record {
  distinct = delete-IsDistinct x s v.distinct;
  counted = omega (arith, count-delete s x h, length-delete x s v.distinct, v.counted);
  within = λ y k. ground (arith, has-delete y x s, v.within y);
}

toggle_level-IsLevelSet :
    (x : String) (s : List String)
    → has x levels ≡ true
    → IsLevelSet s
    → IsLevelSet (toggle_level x s)
unfolding toggle_level
toggle_level-IsLevelSet x s h v = elim (Bool-cases (has x s)) [
  | inl shown ↦ rw shown (delete-IsLevelSet x s h v)
  | inr hidden ↦ rw hidden (add-IsLevelSet x s h v)
]

add_all-IsLevelSet :
    (ls s : List String)
    → ((x : String) → has x ls ≡ true → has x levels ≡ true)
    → IsLevelSet s
    → IsLevelSet (add_all ls s)
unfolding add_all has
add_all-IsLevelSet [] s h v = v
add_all-IsLevelSet (l ∷ ls) s h v =
    add_all-IsLevelSet ls (add l s) (λ x k. h x (ground arith))
      (add-IsLevelSet l s (h l (grind text_tests)) v)

[]-IsLevelSet : IsLevelSet []
unfolding has
[]-IsLevelSet = record { distinct = tt; counted = refl; within = λ x h. cc }

toggle_level_group-IsLevelSet :
    (g : Group) (s : List String) → IsLevelSet s → IsLevelSet (toggle_level_group g s)
unfolding toggle_level_group has
toggle_level_group-IsLevelSet all s v = elim (Bool-cases (is_all_active s)) [
  | inl full ↦ rw full []-IsLevelSet
  | inr partial ↦ rw partial (add_all-IsLevelSet levels s (λ x h. h) v)
]
toggle_level_group-IsLevelSet info s v = toggle_level-IsLevelSet "INFO" s refl v
toggle_level_group-IsLevelSet warning s v = toggle_level-IsLevelSet "WARNING" s refl v
toggle_level_group-IsLevelSet error s v = elim (Bool-cases (is_error_active s)) [
  | inl shown ↦
      rw shown
        (delete-IsLevelSet "CRITICAL" (delete "ERROR" s) refl (delete-IsLevelSet "ERROR" s refl v))
  | inr hidden ↦
      rw hidden (add-IsLevelSet "CRITICAL" (add "ERROR" s) refl (add-IsLevelSet "ERROR" s refl v))
]

-- What a user may do to the set: a chip of one of the levels, or a card.
pub data Toggle : Type 0 where
  chip : (x : String) → has x levels ≡ true → Toggle
  card : Group → Toggle

unfoldable pub apply : Toggle → List String → List String
apply (chip x h) s = toggle_level x s
apply (card g) s = toggle_level_group g s

unfoldable pub apply_all : List Toggle → List String → List String
apply_all [] s = s
apply_all (t ∷ ts) s = apply_all ts (apply t s)

pub apply-IsLevelSet : (t : Toggle) (s : List String) → IsLevelSet s → IsLevelSet (apply t s)
unfolding apply
apply-IsLevelSet (chip x h) s v = toggle_level-IsLevelSet x s h v
apply-IsLevelSet (card g) s v = toggle_level_group-IsLevelSet g s v

apply_all_keeps : (ts : List Toggle) (s : List String) → IsLevelSet s → IsLevelSet (apply_all ts s)
unfolding apply_all
apply_all_keeps [] s v = v
apply_all_keeps (t ∷ ts) s v = apply_all_keeps ts (apply t s) (apply-IsLevelSet t s v)

-- Whatever the user toggles from all five levels on, the set has no level twice and none but the
-- five.
pub apply_all-IsLevelSet : (ts : List Toggle) → IsLevelSet (apply_all ts levels)
apply_all-IsLevelSet ts = apply_all_keeps ts levels levels-IsLevelSet
