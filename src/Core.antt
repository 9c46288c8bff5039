-- ===== src/Core.antt =====
-- scrappy_os/core: the typed vocabulary of the control plane.
pub mod Enums
pub mod Identity
pub mod Values
pub mod Tasks
pub mod Plans
pub mod Calls
pub mod Events
pub mod Bus
pub mod EventBus
