-- ===== src/Auth/Repository.antt =====
-- server/internal/auth/repository.go: the statements on the vaults, users, devices, recovery keys
-- and retired tokens. Ids and times that the source draws inside are arguments. SELECTs of one row
-- return the first; ErrNotFound is `none`.
mod Creation
mod Lookup
unfoldable pub use Creation.*
unfoldable pub use Lookup.*
