-- ===== src/Observability.antt =====
-- src/scrappy_os/observability: what is kept out of logs and of the audit trail.
pub mod Redaction
