-- ===== src/Transport/Http.antt =====
-- transport/http: the server, the writer by which it learns what was answered, and the client.
pub mod Interfaces
pub mod Writer
pub mod Server
pub mod Client
