-- ===== src/User.antt =====
-- services/user: what users are to each other.
pub mod Relationships
