-- ===== src/Application.antt =====
-- The application layer between the API and the stores (backend/src/smeshariki_ai/application).
pub mod Events
pub mod Broker
pub mod Service
mod Tests
