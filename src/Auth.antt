-- ===== src/Auth.antt =====
-- Authentication (backend/src/smeshariki_ai/auth): the models, the in-process stores of
-- memory.py, the token codec of tokens.py and the service of service.py.
pub mod Models
pub mod Limiter
pub mod Blacklist
pub mod Users
pub mod Sessions
pub mod Tokens
pub mod Service
mod Tests
