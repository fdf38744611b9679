-- ===== src/Services.antt =====
-- The example services kris-alpha, kris-beta and kris-gamma, which put the library together.
pub mod Process
pub mod Alpha
pub mod Beta
pub mod Gamma
