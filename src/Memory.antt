-- ===== src/Memory.antt =====
-- src/scrappy_os/memory: what the agents know of a task.
pub mod Working
