-- ===== src/Run.antt =====
-- The data of a run: llm_agent/contracts/domain/runs and llm_agent/llm_agent/domain/agent/runs.
pub mod Code
pub mod Status
