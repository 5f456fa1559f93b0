-- ===== src/Tests.antt =====
-- The theorems of the development at concrete inputs.
pub mod Caches
pub mod Commands
pub mod Reports
pub mod Servers
pub mod Tools
pub mod Pools
pub mod Metrics
pub mod Races
pub mod Scanners
pub mod Files
