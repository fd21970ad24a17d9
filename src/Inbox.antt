-- ===== src/Inbox.antt =====
-- internal/model/order.go and internal/model/resolve.go: what a principal is shown, and how it is named.
pub mod Order
pub mod Stored
pub mod Sorted
pub mod Listing
pub mod Resolve
pub mod Named
