-- ===== src/Tests.antt =====
-- Concrete services, and the theorems at concrete inputs.
pub mod Encoding
pub mod Hashing
pub mod SyncRuns
pub mod BlobRuns
pub mod AccountRuns
pub mod SessionRuns
pub mod ServerRuns
pub mod WiringRuns
pub mod StartRuns
pub mod SystemRuns
pub mod HostRuns
