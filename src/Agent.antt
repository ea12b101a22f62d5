-- ===== src/Agent.antt =====
-- The agent that answers a request with a language model and tools
-- (backend/src/smeshariki_ai/agent).
pub mod Models
pub mod Tools
pub mod Runtime
mod Tests
