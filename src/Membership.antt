-- ===== src/Membership.antt =====
-- server/internal/membership: invites, members and their removal.
pub mod Repository
pub mod Invites
pub mod Redeem
pub mod Members
