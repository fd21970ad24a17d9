-- ===== src/Tests/RowTests.antt =====
-- A list of three rows in a window of two, and columns that are too wide.
use agent_comms.Base.{◌≡◌, ◌≤◌, refl, arith, [], ◌∷◌, some}
use agent_comms.Rows.Scroll.{RowList, new_row_list, refresh_rows, id_at, index_of, row_at_y}
use agent_comms.Rows.Visible.{InSight, refresh_rows-InSight, refresh_keeps_selection}
use agent_comms.Rows.Columns.{total_width, clamp_columns_to_width}
use agent_comms.Rows.Narrow.{clamp_columns_fit}

abbrev scrolled : RowList
scrolled = record new_row_list {
  cursor = 2;
  row_ids = "a" ∷ "b" ∷ "c" ∷ [];
  top_row = 1;
  height = 2;
}

moved :
    refresh_rows ("c" ∷ "a" ∷ "b" ∷ []) scrolled
    ≡ record scrolled { cursor = 0; row_ids = "c" ∷ "a" ∷ "b" ∷ []; top_row = 0 }
unfolding refresh_rows
moved = refl

clicked : row_at_y scrolled 3 10 11 ≡ some 2
unfolding row_at_y
clicked = refl

refresh_rows-InSight_example : InSight 3 (refresh_rows ("c" ∷ "a" ∷ "b" ∷ []) scrolled)
refresh_rows-InSight_example = refresh_rows-InSight ("c" ∷ "a" ∷ "b" ∷ []) scrolled (omega arith)

refresh_keeps_selection_example :
    id_at
      (refresh_rows ("c" ∷ "a" ∷ "b" ∷ []) scrolled).cursor
      (refresh_rows ("c" ∷ "a" ∷ "b" ∷ []) scrolled).row_ids
    ≡ some "c"
unfolding id_at index_of
refresh_keeps_selection_example =
    refresh_keeps_selection ("c" ∷ "a" ∷ "b" ∷ []) scrolled "c" 0 refl refl refl

narrowed : clamp_columns_to_width (10 ∷ 5 ∷ 4 ∷ []) 8 ≡ 3 ∷ 3 ∷ 0 ∷ []
unfolding clamp_columns_to_width
narrowed = refl

clamp_columns_fit_example : total_width (clamp_columns_to_width (10 ∷ 5 ∷ 4 ∷ []) 8) ≤ 8
clamp_columns_fit_example = clamp_columns_fit (10 ∷ 5 ∷ 4 ∷ []) 8
