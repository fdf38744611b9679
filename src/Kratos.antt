-- ===== src/Kratos.antt =====
-- The third-party code under the services: its interface in `Defs`, a concrete one in `Sample`.
pub mod Defs
pub mod Sample
