-- ===== src/Reporting.antt =====
-- src/libs/core, reporting: execution reports, what observes them, and the guard of their status.
pub mod Types
pub mod Progress
pub mod Store
pub mod Report
pub mod Updates
pub mod StatusGuard
mod Tests
