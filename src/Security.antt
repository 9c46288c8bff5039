-- ===== src/Security.antt =====
-- src/scrappy_os/security: authorization, policy, approvals, the audit trail, credentials, authentication, paths and commands.
pub mod Authz
pub mod Policy
pub mod Approvals
pub mod Audit
pub mod AuditEvents
pub mod CredentialService
pub mod Credentials
pub mod CredentialProtocol
pub mod CredentialStore
pub mod Authn
pub mod Paths
pub mod Risk
