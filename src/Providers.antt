-- ===== src/Providers.antt =====
-- frontend/app/(dashboard)/providers/page.tsx: providers, deployments and provider keys.
pub mod Clone
pub mod Forms
pub mod Page
pub mod Info
pub mod Tables
pub mod Drawers
pub mod Rows
