-- ===== src/Mailbox.antt =====
-- Messages, conversations and the owner's actions on them.
mod Messages
pub mod Conversations
pub mod SpamReview
mod Tests
pub use Messages.{
  Direction, inbound, outbound, Verdict, passed, failed, gray, unknown, Message, is_inbound,
  is_pass, is_fail,
}
unfoldable pub use Messages.{has_auth_failure, can_mark_not_spam}
