-- ===== src/Handling.antt =====
-- What the agent may do with a conversation: inbox/services/handling_policy.py.
pub mod States
pub mod Runs
pub mod Working
pub mod Moves
pub mod Fenced
pub mod TakenOver
pub mod Policies
pub mod Leases
pub mod Replying
pub mod OneReply
pub mod Saved
pub mod AgentMail
pub mod AgentSends
pub mod Policy
mod Tests
mod RunTests
mod PolicyTests
