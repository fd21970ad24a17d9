-- ===== src/Rows.antt =====
-- internal/tui/rowlist.go and internal/tui/mouse.go: the lists of rows of the terminal user interface.
pub mod Scroll
pub mod Columns
pub mod Visible
pub mod Narrow
