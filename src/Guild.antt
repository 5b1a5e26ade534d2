-- ===== src/Guild.antt =====
-- The Guild service (services/guild/v1): roles, overwrites and the permissions they give.
pub mod Permissions
pub mod Layout
