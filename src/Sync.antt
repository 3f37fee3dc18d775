-- ===== src/Sync.antt =====
-- server/internal/sync
pub mod Resolve
pub mod Repository
pub mod Wire
pub mod Revisions
pub mod Backed
pub mod Changes
pub mod Push
pub mod Delivery
