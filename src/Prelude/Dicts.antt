-- ===== src/Prelude/Dicts.antt =====
-- Objects used as dictionaries: association lists in the order in which keys were first set.

use mathlib.Core.List.{List, [], ◌∷◌}
use mathlib.Core.Option.{Option, none, some}
use mathlib.Core.Path.{◌≡◌, refl}
use Prim.Native.String.{String}
use text.Mathlib.Text.{◌==◌}
use clever_gate.Prelude.Tests.{text_tests, if◌then◌else◌}

module _ {ℓ} {V : Type ℓ} where
  -- `d[probe]`
  unfoldable pub lookup : (probe : String) (d : List (String × V)) → Option V
  lookup probe [] = none
  lookup probe ((key, value) ∷ rest) =
      let later = lookup probe rest in if key == probe then some value else later

  -- `d[name] = new`: a key that is there keeps its place.
  unfoldable pub insert : (name : String) (new : V) (d : List (String × V)) → List (String × V)
  insert name new [] = (name, new) ∷ []
  insert name new ((key, value) ∷ rest) =
      let later = insert name new rest in
      if key == name then (key, new) ∷ rest else (key, value) ∷ later

  -- Each key has the value that was set last.
  pub lookup-insert :
      (name probe : String) (new : V) (d : List (String × V))
      → lookup probe (insert name new d) ≡ (if name == probe then some new else lookup probe d)
  unfolding insert lookup
  lookup-insert name probe new [] = refl
  lookup-insert name probe new ((key, value) ∷ rest) =
      let ih = lookup-insert name probe new rest in grind (text_tests, ih)

  -- Setting a key twice leaves the second value.
  pub insert-insert :
      (name : String) (old new : V) (d : List (String × V))
      → insert name new (insert name old d) ≡ insert name new d
  unfolding insert
  insert-insert name old new [] = grind text_tests
  insert-insert name old new ((key, value) ∷ rest) =
      grind (text_tests, insert-insert name old new rest)
