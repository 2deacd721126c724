-- ===== src/Replies.antt =====
-- Writing, approving and sending replies (inbox/services/drafts.py) and new emails
-- (inbox/services/compose.py).
pub mod Desk
pub mod Checks
pub mod Writing
pub mod Queueing
pub mod Sending
pub mod Compose
pub mod Composed
pub mod Calls
pub mod SentOnce
pub mod Retried
pub mod Authorized
pub mod Edited
mod Tests
