-- ===== src/Session.antt =====
-- The Session service (services/session/v1): logical sessions, duplicate suppression, watermarks.
pub mod Config
pub mod Logical
pub mod Connection
pub mod Dedup
pub mod Watermark
pub mod Visibility
pub mod Dispatch
