-- ===== src/Manager.antt =====
-- The daemon's manager (daemon-go/cmd/iron-link-daemon).
pub mod Members
pub mod BuildPlan
pub mod Settings
pub mod Prepare
pub mod Session
pub mod Verbs
pub mod Landing
pub mod Served
mod Tests
mod SessionTests
mod ServedTests
