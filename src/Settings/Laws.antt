-- ===== src/Settings/Laws.antt =====
-- What a save sends of drafts that were not, or partly, changed.

use clever_gate.Prelude.{String, Option, List, [], ◌∷◌, insert, ◌≡◌, refl, ap, ◌∙◌, arith}
use clever_gate.Json.{Json, obj}
use clever_gate.Types.{Setting}
use clever_gate.Settings.{draft_from, updates_of, read_value, object_of, handle_save}
use clever_gate.Providers.Forms.Laws.{ReadsBack}
use clever_gate.Api.{Result}

module _ (stringify : Json → String) (parse : String → Option Json) where
  updates_of-insert :
      (k text : String) (d : List (String × String))
      → updates_of parse (insert k text d)
        ≡ insert k (read_value parse text (parse text)) (updates_of parse d)
  unfolding updates_of insert
  updates_of-insert k text [] = refl
  updates_of-insert k text ((j, t) ∷ d) = ground (arith, updates_of-insert k text d)

  -- The object with each setting's value under its key.
  unfoldable pub values_from : List (String × Json) → List Setting → List (String × Json)
  values_from m [] = m
  values_from m (s ∷ ss) = values_from (insert s.key (obj s.value) m) ss

  -- `JSON.parse` reads back the text of each setting's value.
  abbrev pub AllReadBack : List Setting → Type 0
  AllReadBack [] = Unit
  AllReadBack (s ∷ ss) = ReadsBack stringify parse s.value × AllReadBack ss

  updates_of-draft_from :
      (d : List (String × String)) (ss : List Setting)
      → AllReadBack ss
      → updates_of parse (draft_from stringify d ss) ≡ values_from (updates_of parse d) ss
  unfolding draft_from values_from
  updates_of-draft_from d [] reads = refl
  updates_of-draft_from d (s ∷ ss) (read, reads) =
      let text = stringify (obj s.value) in
      updates_of-draft_from (insert s.key text d) ss reads
      ∙ ap (λ m. values_from m ss)
          (updates_of-insert s.key text d
            ∙ ap (λ o. insert s.key (read_value parse text o) (updates_of parse d)) read)

  -- Saving settings that were loaded and not changed sends the object with each loaded value under
  -- its key, where `JSON.parse` reads back the text of each value.
  pub handle_save_unchanged :
      (patch : Json → Result (Option Json)) (ss : List Setting)
      → AllReadBack ss
      → (handle_save parse patch (draft_from stringify [] ss)).body
        ≡ obj (object_of (values_from [] ss))
  unfolding handle_save updates_of
  handle_save_unchanged patch ss reads =
      ap (λ m. obj (object_of m)) (updates_of-draft_from [] ss reads)
