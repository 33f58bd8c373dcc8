-- ===== src/Tests.antt =====
-- Concrete runs of the theorems, a module for each part of the program.
pub mod Cache
pub mod Balance
pub mod Connection
pub mod Series
pub mod Server
pub mod Middlewares
pub mod Transports
pub mod Jsonrpc
pub mod Amqp
pub mod Discovery
pub mod Jwt
pub mod Statsd
pub mod Dogstatsd
