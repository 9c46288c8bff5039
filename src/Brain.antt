-- ===== src/Brain.antt =====
-- src/scrappy_os/brain: the budget of a task and the orchestration loop.
pub mod Limits
pub mod Run
pub mod Endings
pub mod Orchestrator
