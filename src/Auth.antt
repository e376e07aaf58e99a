-- ===== src/Auth.antt =====
-- app/auth
pub mod Jwt
pub mod Middleware
