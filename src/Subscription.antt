-- ===== src/Subscription.antt =====
-- Subscriptions: landing a refresh (daemon-go/internal/subscription) and its schedule
-- (daemon-go/cmd/iron-link-daemon/manager_subscriptions.go).
pub mod Keys
pub mod Refresh
pub mod Rounds
pub mod Schedule
pub mod Sweep
mod Tests
