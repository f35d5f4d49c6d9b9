-- ===== src/Update.antt =====
-- The update check (daemon-go/internal/update).
pub mod Manifest
pub mod Verify
pub mod Fetch
pub mod Version
pub mod Check
pub mod SeqFile
mod Tests
mod SeqFileTests
