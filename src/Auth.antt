-- ===== src/Auth.antt =====
-- auth: authentication middlewares.
pub mod Basic
pub mod Jwt
pub mod Casbin
