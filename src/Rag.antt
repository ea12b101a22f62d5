-- ===== src/Rag.antt =====
-- Structured knowledge for the agent (backend/src/smeshariki_ai/rag).
pub mod Models
pub mod Entities
pub mod Integrity
pub mod Store
pub mod Package
pub mod Merging
pub mod Loading
pub mod Lookup
mod Tests
