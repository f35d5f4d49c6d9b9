-- ===== src/Api.antt =====
-- The control protocol's types (daemon-go/internal/api): requests, replies and events. A reply or an
-- event is a value of the variant that its tag names, where the source has one flat struct.
pub mod Settings
pub mod Request
pub mod Reply
