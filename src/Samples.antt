-- ===== src/Samples.antt =====
-- Concrete services that meet the assumptions of the development, for its tests.
pub mod Memory
pub mod Broker
pub mod Signer
pub mod Redis
pub mod Services
pub mod Program
