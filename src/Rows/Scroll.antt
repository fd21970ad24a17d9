-- ===== src/Rows/Scroll.antt =====
-- internal/tui/rowlist.go: the cursor of a list and its first visible row, and rowAtY of
-- internal/tui/mouse.go. Both numbers start at 0 and are never set below it.
use agent_comms.Base.{
  ℕ, zero, suc, ◌+◌, ◌-◌, String, Bool, true, false, ◌==◌, Option, none, some, List, [], ◌∷◌, ltb,
  leb, length, if◌then◌else◌,
}
use agent_comms.Base.Integers.{ℤ, pos, negsuc}

-- What a list is scrolled by; `row_ids` are the rows of the last refresh.
pub record RowList : Type 0 where
  pub cursor : ℕ
  pub row_ids : List String
  pub top_row : ℕ
  pub height : ℕ
  pub width : ℤ

-- newRowList
abbrev pub new_row_list : RowList
new_row_list = record { cursor = 0; row_ids = []; top_row = 0; height = 20; width = pos 0 }

abbrev pub lesser : ℕ → ℕ → ℕ
lesser a b = if leb a b then a else b

abbrev pub greater : ℕ → ℕ → ℕ
greater a b = if leb a b then b else a

-- clamp v 0 hi
abbrev pub clamp_from_zero : ℤ → ℕ → ℕ
clamp_from_zero (negsuc n) hi = 0
clamp_from_zero (pos n) hi = lesser n hi

-- The first visible row after each of the tests of clampTopRow.
unfoldable pub clamped_top : ℕ → ℕ → ℕ → ℕ → ℕ
clamped_top cursor top height row_count =
    let low = if ltb cursor top then cursor else top in
    let near = if leb (low + height) cursor then cursor - height + 1 else low in
    if ltb (row_count - height) near then row_count - height else near

unfoldable pub clamp_top_row : ℕ → RowList → RowList
unfolding clamped_top
clamp_top_row row_count r = record r {
  top_row = clamped_top r.cursor r.top_row (greater 1 r.height) row_count;
}

unfoldable pub set_cursor : ℤ → ℕ → RowList → RowList
unfolding clamp_top_row
set_cursor n row_count r =
    if leb row_count 0
    then record r { cursor = 0; top_row = 0 }
    else clamp_top_row row_count (record r { cursor = clamp_from_zero n (row_count - 1) })

-- The sum of a row number and a step.
abbrev pub shift : ℕ → ℤ → ℤ
shift row (pos step) = pos (row + step)
shift row (negsuc step) = if ltb step row then pos (row - suc step) else negsuc (step - row)

unfoldable pub move_cursor : ℤ → ℕ → RowList → RowList
unfolding set_cursor
move_cursor delta row_count r = set_cursor (shift r.cursor delta) row_count r

abbrev pub at_least_one : ℤ → ℕ
at_least_one (negsuc n) = 1
at_least_one (pos n) = greater 1 n

unfoldable pub set_dimensions : ℤ → ℤ → RowList → RowList
set_dimensions w h r = record r { width = w; height = at_least_one h }

unfoldable pub clamp_to_row_count : ℕ → RowList → RowList
unfolding clamp_top_row
clamp_to_row_count row_count r =
    if leb row_count 0
    then record r { cursor = 0; top_row = 0 }
    else clamp_top_row row_count
        (record r { cursor = if leb row_count r.cursor then row_count - 1 else r.cursor })

-- The ID of a row, if there is such a row.
unfoldable pub id_at : ℕ → List String → Option String
id_at n [] = none
id_at zero (id ∷ ids) = some id
id_at (suc n) (id ∷ ids) = id_at n ids

abbrev next_index : Option ℕ → Option ℕ
next_index none = none
next_index (some n) = some (suc n)

-- The index of the first row with the ID.
unfoldable pub index_of : String → List String → Option ℕ
index_of id [] = none
index_of id (x ∷ xs) = if x == id then some 0 else next_index (index_of id xs)

-- The row of an ID that is looked for becomes the cursor, or the cursor is kept in range.
unfoldable pub follow : Option ℕ → ℕ → RowList → RowList
unfolding set_cursor clamp_to_row_count
follow (some index) row_count r = set_cursor (pos index) row_count r
follow none row_count r = clamp_to_row_count row_count r

-- An empty ID is no selection.
abbrev pub selected_index : Option String → List String → Option ℕ
selected_index none ids = none
selected_index (some id) ids = if id == "" then none else index_of id ids

-- Refresh, with the IDs that the source gives
unfoldable pub refresh_rows : List String → RowList → RowList
unfolding id_at index_of follow
refresh_rows ids r =
    follow (selected_index (id_at r.cursor r.row_ids) ids) (length ids) (record r { row_ids = ids })

abbrev select_index : Option ℕ → ℕ → RowList → RowList × Bool
unfolding set_cursor
select_index none row_count r = (r, false)
select_index (some index) row_count r = (set_cursor (pos index) row_count r, true)

-- SelectID
unfoldable pub select_id : String → List String → RowList → RowList × Bool
unfolding index_of select_index
select_id id ids r = select_index (index_of id ids) (length ids) (record r { row_ids = ids })

-- rowAtY; `first_row` is the line of the first visible row.
unfoldable pub row_at_y : RowList → ℕ → ℕ → ℕ → Option ℕ
row_at_y r row_count first_row y =
    if leb row_count 0
    then none
    else if ltb y first_row
    then none
    else if leb (lesser (r.top_row + greater 1 r.height) row_count) (r.top_row + (y - first_row))
    then none
    else some (r.top_row + (y - first_row))
