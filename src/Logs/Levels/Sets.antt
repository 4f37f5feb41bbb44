-- ===== src/Logs/Levels/Sets.antt =====
-- The laws of the sets of level names.
use text.Mathlib.Text.{◌==◌}
use clever_gate.Prelude.{
  text_tests, ℕ, ◌+◌, String, Bool, true, false, not, ◌&&◌, ◌||◌, List, [], ◌∷◌, ◌++◌, ◌≡◌, refl,
  arith, length, length-append,
}
use clever_gate.Logs.Levels.{has, add, delete}

pub has-append : (x : String) (s t : List String) → has x (s ++ t) ≡ (has x s || has x t)
unfolding has
has-append x [] t = refl
has-append x (y ∷ s) t = ground (arith, has-append x s t)

pub has-add : (x y : String) (s : List String) → has x (add y s) ≡ (y == x || has x s)
unfolding add has
has-add x y s = grind (text_tests, has-append x s (y ∷ []))

pub has-delete : (x y : String) (s : List String) → has x (delete y s) ≡ (not (y == x) && has x s)
unfolding delete has
has-delete x y [] = ground arith
has-delete x y (z ∷ s) = grind (text_tests, has-delete x y s)

-- No element stands twice.
abbrev pub IsDistinct : List String → Type 0
IsDistinct [] = Unit {0}
IsDistinct (x ∷ s) = (has x s ≡ false) × IsDistinct s

IsDistinct-snoc :
    (x : String) (s : List String) → IsDistinct s → has x s ≡ false → IsDistinct (s ++ x ∷ [])
unfolding has
IsDistinct-snoc x [] d h = (refl, tt)
IsDistinct-snoc x (y ∷ s) (n, d) h =
    (grind (text_tests, has-append y s (x ∷ [])), IsDistinct-snoc x s d (ground arith))

pub add-IsDistinct : (x : String) (s : List String) → IsDistinct s → IsDistinct (add x s)
unfolding add
add-IsDistinct x s d = ground (arith, IsDistinct-snoc x s d)

pub delete-IsDistinct : (x : String) (s : List String) → IsDistinct s → IsDistinct (delete x s)
unfolding delete
delete-IsDistinct x [] d = tt
delete-IsDistinct x (y ∷ s) (n, d) = ground (arith, has-delete y x s, delete-IsDistinct x s d)

abbrev pub bit : Bool → ℕ
bit true = 1
bit false = 0

pub length-add : (x : String) (s : List String) → length (add x s) + bit (has x s) ≡ length s + 1
unfolding add
length-add x s = ground (arith, length-append s (x ∷ []))

delete_absent : (x : String) (s : List String) → has x s ≡ false → delete x s ≡ s
unfolding delete has
delete_absent x [] h = refl
delete_absent x (y ∷ s) h = ground (arith, delete_absent x s)

pub length-delete :
    (x : String) (s : List String) → IsDistinct s → length (delete x s) + bit (has x s) ≡ length s
unfolding delete has
length-delete x [] d = refl
length-delete x (y ∷ s) (n, d) = grind (text_tests, length-delete x s d, delete_absent x s)
