-- ===== src/Conformance.antt =====
-- The methods of the stores against the step relation of `Lifecycle`.
pub mod Moves
pub mod Claim
pub mod Worker
pub mod Intake
