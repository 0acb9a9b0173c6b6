-- ===== src/Auth.antt =====
-- backend/internal/auth: credentials, principals and signed sessions.
pub mod Principals
pub mod Service
pub mod Session
