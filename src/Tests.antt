-- ===== src/Tests.antt =====
-- The theorems at concrete inputs.
mod Api
mod Panel
mod Pages
mod Logs
mod Providers
