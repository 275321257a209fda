-- ===== src/Access.antt =====
-- Who may do what: permissions of an identity and the identity of a login
-- (backend/enterprise_rag/application/tenant_context.py).
pub mod Identity
pub mod Permission
pub mod Context
mod Tests
