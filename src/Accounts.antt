-- ===== src/Accounts.antt =====
-- Domains and billing profiles (inbox/models.py), and what a plan entitles an account to
-- (inbox/services/entitlements.py).
mod Domains
mod Profiles
pub use Domains.*
pub use Profiles.*
pub mod Entitlements
