-- ===== src/Xacto.antt =====
-- The Xacto server of hw5.
pub mod Registry
pub mod Transaction
pub mod Data
pub mod Protocol
pub mod Versions
mod Tests
