-- ===== src/Outbound.antt =====
-- Outbound mail: the message rows (inbox/models.py), the sending quotas and the pause switch, the
-- submission to SES and what SES reports afterwards (inbox/services/outbound.py, ingestion.py).
pub mod Message
pub mod Quota
pub mod Submission
pub mod Delivery
pub mod Workers
mod Tests
