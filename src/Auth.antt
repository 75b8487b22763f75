-- ===== src/Auth.antt =====
-- The state that the program keeps in Redis: backend/app/auth, and the stores of the write path and
-- of the catalog's scheduler that use the same interface.
pub mod Redis
pub mod Breaker
pub mod Lockout
pub mod Sessions
pub mod Tokens
