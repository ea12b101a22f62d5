-- ===== src/Dialogs.antt =====
-- Dialogs of users with the assistant (backend/src/smeshariki_ai/dialogs).
pub mod Models
pub mod History
mod Tests
