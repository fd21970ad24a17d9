-- ===== src/Tests.antt =====
-- Concrete inputs: the theorems at states that the code meets.
pub mod Fixtures
mod TaskTests
mod AgentTests
mod AuthorityTests
mod MessageTests
mod InvocationTests
mod SettingsTests
mod TakeoverTests
mod AttemptTests
mod CacheTests
mod DraftTests
mod InboxTests
mod ServiceTests
mod DeliveryTests
mod RowTests
mod FreshTests
mod RetryTests
