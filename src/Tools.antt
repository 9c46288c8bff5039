-- ===== src/Tools.antt =====
-- scrappy_os/tools: the registry of tools and the executor that runs them.
pub mod Registry
pub mod Executor
