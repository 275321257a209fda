-- ===== src/Domain.antt =====
-- The shared domain types (backend/enterprise_rag/domain/types.py).
pub mod Lifecycle
pub mod Message
mod Tests
