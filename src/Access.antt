-- ===== src/Access.antt =====
-- Who may touch what: roles and permissions, actors, resource ownership and the tools of the voice
-- assistant (apps/api/app/core/security/).
pub mod Rbac
pub mod Actor
pub mod Ownership
pub mod VapiTools
