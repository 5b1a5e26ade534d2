-- ===== src/Gateway.antt =====
-- services/gateway: what a gateway keeps of its clients' streams.
pub mod Checkpoints
