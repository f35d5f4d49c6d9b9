-- ===== src/Engine.antt =====
-- The engine: session plans and what they compile to (daemon-go/internal/engine).
pub mod Tunables
pub mod Plan
pub mod Route
pub mod Host
pub mod XrayClient
pub mod Configs
mod Tests
