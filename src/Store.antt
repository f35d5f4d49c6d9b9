-- ===== src/Store.antt =====
-- The profile store (daemon-go/internal/store).
pub mod Lookups
pub mod Name
pub mod Profile
pub mod Reread
pub mod Mutators
pub mod Invariant
mod Tests
mod FileTests
pub mod Sample
pub mod Files
pub mod Profiles
pub mod Settings
