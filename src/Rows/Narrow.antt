-- ===== src/Rows/Narrow.antt =====
-- internal/tui/rowlist.go, clampColumnsToWidth: the columns fit the width.
use mathlib.Core.List.{reverse, reverse-cons, ◌++◌}
use agent_comms.Base.{
  ℕ, ◌+◌, ◌-◌, ◌≤◌, ◌≡◌, refl, ap, ◌∙◌, inl, inr, arith, List, [], ◌∷◌, leb, Bool-cases,
}
use agent_comms.Rows.Scroll.{lesser}
use agent_comms.Rows.Columns.{total_width, shrink, drop_columns, clamp_columns_to_width}

total_width-append : (xs ys : List ℕ) → total_width (xs ++ ys) ≡ total_width xs + total_width ys
unfolding total_width
total_width-append [] ys = omega arith
total_width-append (x ∷ xs) ys = omega (arith, total_width-append xs ys)

total_width-reverse : (xs : List ℕ) → total_width (reverse xs) ≡ total_width xs
unfolding total_width
total_width-reverse [] = refl
total_width-reverse (x ∷ xs) =
    ap total_width (reverse-cons x xs)
    ∙ total_width-append (reverse xs) (x ∷ [])
    ∙ omega (arith, total_width-reverse xs)

-- What the first loop has taken, with what is still over, is what was over.
shrink_total :
    (ws : List ℕ) (over : ℕ)
    → total_width (shrink ws over).0 + over ≡ total_width ws + (shrink ws over).1
unfolding total_width shrink
shrink_total [] over = omega arith
shrink_total (w ∷ ws) over = let rest = shrink_total ws (over - lesser (w - 3) over) in ground arith

drop_columns_fit :
    (ws : List ℕ) (over : ℕ) → total_width (drop_columns ws over) ≤ total_width ws - over
unfolding total_width drop_columns
drop_columns_fit [] over = omega arith
drop_columns_fit (w ∷ ws) over = ground (arith, drop_columns_fit ws (over - w))

-- The columns that clampColumnsToWidth returns are together never wider than the width they are to
-- fit in.
pub clamp_columns_fit : (cols : List ℕ) (w : ℕ) → total_width (clamp_columns_to_width cols w) ≤ w
unfolding clamp_columns_to_width
clamp_columns_fit cols w = elim (Bool-cases (leb (total_width cols) w)) [
  | inl fits ↦ rw (fits) (ground arith)
  | inr wide ↦
      let over = total_width cols - w in
      let shrunk = shrink (reverse cols) over in
      let first = shrink_total (reverse cols) over in
      let second = drop_columns_fit shrunk.0 shrunk.1 in
      let whole = total_width-reverse cols in
      rw (wide) rw (total_width-reverse (drop_columns shrunk.0 shrunk.1)) (ground arith)
]
