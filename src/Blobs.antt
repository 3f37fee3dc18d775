-- ===== src/Blobs.antt =====
-- server/internal/blobs: the metadata rows, the files on disk, the two endpoints and the garbage
-- collection.
pub mod Repository
pub mod Files
pub mod Handlers
pub mod Gc
pub mod Stocked
