-- ===== src/Rows/Visible.antt =====
-- internal/tui/rowlist.go and internal/tui/mouse.go: the cursor stays in sight and on its entity.
use agent_comms.Base.{
  ℕ, suc, ◌+◌, ◌-◌, ◌<◌, ◌≤◌, ◌≡◌, ◌⊎◌, inl, inr, ap, arith, String, false, Option, none, some,
  List, [], ◌∷◌, ltb, leb, length, ◌==◌, eq_iff, if◌then◌else◌, Bool-cases, Option-cases,
}
use agent_comms.Base.Integers.{ℤ, pos, negsuc}
use agent_comms.Rows.Scroll.{
  RowList, lesser, greater, clamp_from_zero, clamped_top, clamp_top_row, set_cursor,
  clamp_to_row_count, id_at, index_of, follow, selected_index, refresh_rows,
}

-- The cursor is one of the rows and in the window, and the window ends with the rows, or starts
-- with them.
pub record InSight (row_count : ℕ) (r : RowList) : Type 0 where
  pub on_a_row : r.cursor < row_count
  pub below_top : r.top_row ≤ r.cursor
  pub above_end : r.cursor < r.top_row + greater 1 r.height
  pub filled : (r.top_row ≡ 0) ⊎ (r.top_row + greater 1 r.height ≤ row_count)

-- The window after the first two tests, which look at the cursor only.
window_top : ℕ → ℕ → ℕ → ℕ
window_top cursor top height =
    let low = if ltb cursor top then cursor else top in
    if leb (low + height) cursor then cursor - height + 1 else low

window_top_lem :
    (cursor top height : ℕ)
    → 0 < height
    → (window_top cursor top height ≤ cursor) × (cursor < window_top cursor top height + height)
unfolding window_top
window_top_lem cursor top height positive = ground arith

clamped_top_lem :
    (cursor top height row_count : ℕ)
    → cursor < row_count
    → 0 < height
    → (clamped_top cursor top height row_count ≤ cursor)
      × (cursor < clamped_top cursor top height row_count + height)
      × ((clamped_top cursor top height row_count ≡ 0)
          ⊎ (clamped_top cursor top height row_count + height ≤ row_count))
unfolding clamped_top window_top
clamped_top_lem cursor top height row_count h positive =
    let (low, high) = window_top_lem cursor top height positive in
    elim (Bool-cases (ltb (row_count - height) (window_top cursor top height))) [
      | inl beyond ↦ elim (Bool-cases (leb height row_count)) [
        | inl full ↦ rw (beyond) (ground arith, ground arith, inr (ground arith))
        | inr short ↦ rw (beyond) (ground arith, ground arith, inl (ground arith))
      ]
      | inr within ↦ elim (Bool-cases (leb height row_count)) [
        | inl full ↦ rw (within) (low, high, inr (ground arith))
        | inr short ↦ rw (within) (low, high, inl (ground arith))
      ]
    ]

clamp_top_row-InSight :
    (row_count : ℕ) (r : RowList)
    → r.cursor < row_count
    → InSight row_count (clamp_top_row row_count r)
unfolding clamp_top_row
clamp_top_row-InSight row_count r h =
    let (low, high, filled) =
      clamped_top_lem r.cursor r.top_row (greater 1 r.height) row_count h (ground arith) in
    record { on_a_row = h; below_top = low; above_end = high; filled = filled }

set_cursor-InSight :
    (n : ℤ) (row_count : ℕ) (r : RowList)
    → 0 < row_count
    → InSight row_count (set_cursor n row_count r)
unfolding set_cursor
set_cursor-InSight n row_count r h =
    let some_rows : leb row_count 0 ≡ false = ground arith in
    rw (some_rows) (
      clamp_top_row-InSight row_count (record r { cursor = clamp_from_zero n (row_count - 1) })
        (in_range n))
  where
    in_range : (n : ℤ) → clamp_from_zero n (row_count - 1) < row_count
    in_range (negsuc n) = h
    in_range (pos n) = ground arith

follow-InSight :
    (o : Option ℕ) (row_count : ℕ) (r : RowList)
    → 0 < row_count
    → InSight row_count (follow o row_count r)
unfolding follow clamp_to_row_count
follow-InSight (some index) row_count r h = set_cursor-InSight (pos index) row_count r h
follow-InSight none row_count r h =
    let some_rows : leb row_count 0 ≡ false = ground arith in
    rw (some_rows) (
      clamp_top_row-InSight row_count
        (record r { cursor = if leb row_count r.cursor then row_count - 1 else r.cursor })
        (ground arith))

-- After a refresh with any rows, from any state, the cursor is on one of them and in the window, and
-- the window shows no space behind the last row unless it starts at the first.
pub refresh_rows-InSight :
    (ids : List String) (r : RowList) → 0 < length ids → InSight (length ids) (refresh_rows ids r)
unfolding refresh_rows
refresh_rows-InSight ids r h =
    follow-InSight (selected_index (id_at r.cursor r.row_ids) ids) (length ids)
      (record r { row_ids = ids }) h

id_at-index_of :
    (id : String) (ids : List String) {index : ℕ}
    → index_of id ids ≡ some index
    → (id_at index ids ≡ some id) × (index < length ids)
unfolding index_of id_at
id_at-index_of id [] h = absurd cc
id_at-index_of id (x ∷ xs) {index} h = elim (Bool-cases (x == id)) [
  | inl here ↦
      let first : some 0 ≡ some index = rw (here) at h in
      let e : 0 ≡ index = cc in rw (← e) (ap some ((eq_iff x id).0 here), omega arith)
  | inr there ↦ elim (Option-cases (index_of id xs)) [
    | inl never ↦ let e : none ≡ some index = rw (index_of, there, never) at h in absurd cc
    | inr (n, found) ↦
        let (kept, small) = id_at-index_of id xs found in
        let next : some (suc n) ≡ some index = rw (index_of, there, found) at h in
        let e : suc n ≡ index = cc in rw (← e) (kept, omega (arith, small))
  ]
]

-- If the row under the cursor has an ID, which is not empty and is still among the rows, then it is
-- under the cursor after the refresh as well, wherever its row has moved.
pub refresh_keeps_selection :
    (ids : List String) (r : RowList) (id : String) (index : ℕ)
    → id_at r.cursor r.row_ids ≡ some id
    → (id == "") ≡ false
    → index_of id ids ≡ some index
    → id_at (refresh_rows ids r).cursor (refresh_rows ids r).row_ids ≡ some id
unfolding refresh_rows follow set_cursor clamp_top_row
refresh_keeps_selection ids r id index selected named there =
    let (kept, small) = id_at-index_of id ids there in
    let some_rows : leb (length ids) 0 ≡ false = ground arith in
    let in_range : lesser index (length ids - 1) ≡ index = ground arith in
    rw (refresh_rows, selected) rw (named) rw (there) rw (follow, set_cursor, some_rows) rw
      (in_range) kept
