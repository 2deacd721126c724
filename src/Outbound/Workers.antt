-- ===== src/Outbound/Workers.antt =====
-- Several workers, the event consumer and the owner acting on the outbound messages at once, as
-- interleavings of their transactions and of the calls of SES.
pub mod Steps
pub mod Claims
pub mod Unqueues
pub mod AtMostOnce
