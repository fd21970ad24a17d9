-- ===== src/Rows/Columns.antt =====
-- internal/tui/rowlist.go, clampColumnsToWidth, on the widths of the columns, the last one first, which
-- is the order of both loops. Widths are not negative.
use agent_comms.Base.{ℕ, ◌+◌, ◌-◌, List, [], ◌∷◌, leb, if◌then◌else◌}
use mathlib.Core.List.{reverse}
use agent_comms.Rows.Scroll.{lesser, greater}

-- cellWidth
unfoldable pub cell_width : ℕ → ℕ
cell_width col_width = greater 1 (col_width - 2)

unfoldable pub total_width : List ℕ → ℕ
total_width [] = 0
total_width (w ∷ ws) = w + total_width ws

-- The first loop: columns give what they have above 3. The result has what is still over.
unfoldable pub shrink : List ℕ → ℕ → List ℕ × ℕ
shrink [] over = ([], over)
shrink (w ∷ ws) over =
    let taken = lesser (w - 3) over in
    let rest = shrink ws (over - taken) in ((w - taken) ∷ rest.0, rest.1)

-- The second loop: whole columns go while there is something over.
unfoldable pub drop_columns : List ℕ → ℕ → List ℕ
drop_columns [] over = []
drop_columns (w ∷ ws) over =
    let rest = drop_columns ws (over - w) in if leb over 0 then w ∷ ws else 0 ∷ rest

unfoldable pub clamp_columns_to_width : List ℕ → ℕ → List ℕ
unfolding total_width shrink drop_columns
clamp_columns_to_width cols w =
    if leb (total_width cols) w
    then cols
    else (let shrunk = shrink (reverse cols) (total_width cols - w) in
        reverse (drop_columns shrunk.0 shrunk.1))
