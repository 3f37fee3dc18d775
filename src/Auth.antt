-- ===== src/Auth.antt =====
-- server/internal/auth
pub mod Context
pub mod Repository
pub mod Inserts
pub mod Services
pub mod Tokens
pub mod Kdf
pub mod Middleware
pub mod Session
pub mod Bootstrap
pub mod Account
pub mod Recovery
