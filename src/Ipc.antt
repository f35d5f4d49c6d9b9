-- ===== src/Ipc.antt =====
-- The control transport (daemon-go/internal/ipc).
pub mod Codec
pub mod Hub
mod Tests
