-- ===== src/Claiming.antt =====
-- The methods by which a worker claims, keeps and ends runs.
pub mod Recovery
pub mod Claim
pub mod Loop
pub mod OnlyOne
pub mod Progress
pub mod Completion
pub mod Heartbeat
pub mod Steps
