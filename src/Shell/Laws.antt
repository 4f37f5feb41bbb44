-- ===== src/Shell/Laws.antt =====
-- A path is in one place of the sidebar.
use text.Mathlib.Text.{◌==◌}
use clever_gate.Prelude.{
  text_tests, String, Bool, true, false, not, ◌||◌, ◌&&◌, List, [], ◌∷◌, ◌++◌, ◌≡◌, ◌≢◌, refl, inl,
  inr, arith, any, is_some, starts_with, strip_prefix, if◌then◌else◌, Bool-cases,
}
use clever_gate.Shell.{NavItem, NavGroup, grouped_nav, is_active}

-- The addresses of a list of groups.
abbrev hrefs_in : List NavItem → List String
hrefs_in [] = []
hrefs_in (i ∷ is) = i.href ∷ hrefs_in is

abbrev pub hrefs : List NavGroup → List String
hrefs [] = []
hrefs (g ∷ gs) = hrefs_in g.items ++ hrefs gs

abbrev pub has : String → List String → Bool
has x = any (λ y. y == x)

-- Two prefixes of one text: one is a prefix of the other.
starts_with_both :
    (p a b : String)
    → is_some (strip_prefix a p) ≡ true
    → is_some (strip_prefix b p) ≡ true
    → (is_some (strip_prefix a b) || is_some (strip_prefix b a)) ≡ true
unfolding strip_prefix
starts_with_both p String.[] b h k = refl
starts_with_both p (String.◌∷◌ c a) String.[] h k = refl
starts_with_both String.[] (String.◌∷◌ c a) (String.◌∷◌ d b) h k = cc
starts_with_both (String.◌∷◌ x p) (String.◌∷◌ c a) (String.◌∷◌ d b) h k =
    ground (arith, starts_with_both p a b)

clash : String → String → Bool
clash a b =
    not (a == b)
    && (if a == "/"
        then is_active "/" b
        else if b == "/"
        then is_active "/" a
        else starts_with a b || starts_with b a)

abbrev no_clash : List String → Bool
no_clash hs = not (any (λ a. any (λ b. clash a b) hs) hs)

nav_no_clash : no_clash (hrefs grouped_nav) ≡ true
unfolding grouped_nav clash is_active
nav_no_clash = refl

any-false :
    (p : String → Bool) (x : String) (xs : List String)
    → any p xs ≡ false
    → has x xs ≡ true
    → p x ≡ false
any-false p x [] h k = cc
any-false p x (y ∷ ys) h k = grind (text_tests, any-false p x ys)

active_clash :
    (path a b : String)
    → is_active path a ≡ true
    → is_active path b ≡ true
    → a ≢ b
    → clash a b ≡ true
unfolding clash is_active
active_clash path a b h k n = grind (text_tests, starts_with_both path a b)

-- At most one entry of the sidebar is lit, whatever the path is.
is_active_unique :
    (path a b : String)
    → has a (hrefs grouped_nav) ≡ true
    → has b (hrefs grouped_nav) ≡ true
    → is_active path a ≡ true
    → is_active path b ≡ true
    → a ≡ b
is_active_unique path a b h k p q = elim (Bool-cases (a == b)) [
  | inl same ↦ grind text_tests
  | inr other ↦
      let hs = hrefs grouped_nav in
      let none_of_a =
        any-false (λ x. any (λ y. clash x y) hs) a hs (ground (arith, nav_no_clash)) h in
      let none_of_both = any-false (λ y. clash a y) b hs none_of_a k in
      absurd (grind (text_tests, active_clash path a b p q))
]
