-- ===== src/Table.antt =====
-- frontend/components/cg/Table.tsx: what a table draws, and how many pages its pager has. The table
-- is used with a page size that is not 0.
pub mod Laws
use clever_gate.Prelude.{
  ℕ, suc, ◌+◌, ◌-◌, ◌/◌, ◌&&◌, String, Bool, true, false, Option, none, some, List, [], ◌∷◌, map,
  nat_eq, ltb, if◌then◌else◌,
}

-- A column: its key, its label and what it draws of a row. Without `render` that is the text of the
-- row's property of that key, for which `text_of` stands.
pub record Column {ℓ} (T : Type ℓ) : Type ℓ where
  pub key : String
  pub label : String
  pub render : Option (T → String)

-- `Math.ceil(total / pageSize) || 1`
unfoldable pub total_pages : (total page_size : ℕ) → ℕ
total_pages total page_size =
    let n = (total + (page_size - 1)) / page_size in if nat_eq n 0 then 1 else n

pub data Body : Type 0 where
  spinner : Body
  empty : (message : String) → Body
  rows : List (String × List String) → Body

module _ {ℓ} {T : Type ℓ} (text_of : T → String → String) (row_key : T → String) where
  abbrev cell_of : T → Column T → Option (T → String) → String
  cell_of row col none = text_of row col.key
  cell_of row col (some render) = render row

  abbrev row_of : List (Column T) → T → String × List String
  row_of columns row = (row_key row, map (λ col. cell_of row col col.render) columns)

  unfoldable pub body : Bool → String → List (Column T) → List T → Body
  body loading message columns [] = if loading then spinner else empty message
  body loading message columns (r ∷ rs) =
      if loading then spinner else rows (map (row_of columns) (r ∷ rs))

-- The pager: the chosen page and the number of pages, where there is more than one page.
unfoldable pub pager : Bool → (page page_size total : ℕ) → Option (ℕ × ℕ)
unfolding total_pages
pager has_handler page page_size total =
    if has_handler && ltb page_size total then some (page, total_pages total page_size) else none
