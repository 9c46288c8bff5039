-- ===== src/Interface.antt =====
-- src/scrappy_os/interface: the boundary of the HTTP interface.
pub mod Security
