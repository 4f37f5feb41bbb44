-- ===== src/Logs.antt =====
-- frontend/app/(dashboard)/logs/page.tsx: the log console.
pub mod Levels
pub mod Page
pub mod Socket
pub mod Query
pub mod Row
pub mod Console
pub mod View
pub mod Inspector
pub mod Follow
