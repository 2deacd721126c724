-- ===== src/Drafts.antt =====
-- Reply drafts, their immutable revisions and the owner's approvals (inbox/models.py,
-- inbox/services/drafts.py).
mod Revisions
pub use Revisions.*
