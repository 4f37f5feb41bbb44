-- ===== src/Keys/Laws.antt =====
-- The text of a key's models, read back by the form.
use Prim.Native.Char.{code}
use text.Mathlib.TextLemmas.{nil-append, cons-append, append-nil, append_assoc}
use clever_gate.Prelude.{
  String, Bool, true, false, not, ◌&&◌, some, List, [], ◌∷◌, ◌<>◌, truthy, map, trim, keep_if,
  split, split_from, join, nat_eq, ◌≡◌, refl, sym, ap, ◌∙◌, arith,
}
use clever_gate.Keys.{allowed_models, models_text}

-- The text has no comma.
abbrev pub no_comma : String → Bool
no_comma String.[] = true
no_comma (String.◌∷◌ c s) = not (nat_eq (code c) b',') && no_comma s

-- A name that the form can read: not empty, without a comma and without white space at its ends.
abbrev pub IsName : String → Type 0
IsName m = (truthy m ≡ true) × (no_comma m ≡ true) × (trim m ≡ m)

abbrev pub AllNames : List String → Type 0
AllNames [] = Unit {0}
AllNames (m ∷ ms) = IsName m × AllNames ms

split_from-append :
    (cur x t : String)
    → no_comma x ≡ true
    → split_from b',' cur (x <> t) ≡ split_from b',' (cur <> x) t
unfolding split_from
split_from-append cur String.[] t h = rw (nil-append t, append-nil cur) refl
split_from-append cur (String.◌∷◌ c x) t h =
    let plain : nat_eq (code c) b',' ≡ false = ground arith in
    rw (cons-append c x t, split_from, plain)
      (split_from-append (cur <> String.◌∷◌ c "") x t (ground arith)
        ∙ ap (λ s. split_from b',' s t)
            (append_assoc cur (String.◌∷◌ c "") x
              ∙ ap (λ s. cur <> s) (cons-append c "" x ∙ ap (String.◌∷◌ c) (nil-append x))))

comma-append : (t : String) → ", " <> t ≡ String.◌∷◌ "," (String.◌∷◌ " " t)
comma-append t =
    cons-append "," " " t
    ∙ ap (String.◌∷◌ ",") (cons-append " " "" t ∙ ap (String.◌∷◌ " ") (nil-append t))

trim-space : (m : String) → trim (" " <> m) ≡ trim m
trim-space m = ap trim (cons-append " " "" m ∙ ap (String.◌∷◌ " ") (nil-append m))

truthy-append : (m t : String) → truthy m ≡ true → truthy (m <> t) ≡ true
truthy-append String.[] t h = cc
truthy-append (String.◌∷◌ c m) t h = rw (cons-append c m t) refl

abbrev pieces : String → List String → List String
pieces cur [] = []
pieces cur (m ∷ ms) = (cur <> m) ∷ map (λ x. " " <> x) ms

split_from-join :
    (cur m : String) (ms : List String)
    → AllNames (m ∷ ms)
    → split_from b',' cur (join ", " (m ∷ ms)) ≡ pieces cur (m ∷ ms)
unfolding split_from join
split_from-join cur m [] ((t, c, s), u) =
    ap (split_from b',' cur) (sym (append-nil m)) ∙ split_from-append cur m "" c
split_from-join cur m (y ∷ ys) ((t, c, s), u) =
    split_from-append cur m (", " <> join ", " (y ∷ ys)) c
    ∙ ap (split_from b',' (cur <> m)) (comma-append (join ", " (y ∷ ys)))
    ∙ ap (λ l. (cur <> m) ∷ l) (split_from-join " " y ys u)

join-truthy : (m : String) (ms : List String) → truthy m ≡ true → truthy (join ", " (m ∷ ms)) ≡ true
unfolding join
join-truthy m [] h = h
join-truthy m (y ∷ ys) h = truthy-append m (", " <> join ", " (y ∷ ys)) h

read_pieces :
    (ms : List String) → AllNames ms → keep_if truthy (map trim (map (λ x. " " <> x) ms)) ≡ ms
read_pieces [] u = refl
read_pieces (m ∷ ms) ((t, c, s), u) = rw (trim-space m, s, t, read_pieces ms u) refl

-- The text that the table shows for a list of at least one model gives the same list when it is
-- written into the form, if each name is not empty and has no comma and no white space at its
-- ends.
pub allowed_models-models_text :
    (m : String) (ms : List String)
    → AllNames (m ∷ ms)
    → allowed_models (models_text (some (m ∷ ms))) ≡ some (m ∷ ms)
unfolding allowed_models models_text split
allowed_models-models_text m ms ((t, c, s), u) =
    rw
      (
        join-truthy m ms t,
        split_from-join "" m ms ((t, c, s), u),
        nil-append m,
        s,
        t,
        read_pieces ms u,
      )
      refl
