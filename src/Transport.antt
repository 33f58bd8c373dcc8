-- ===== src/Transport.antt =====
-- transport: servers over several transports, and the HTTP client.
pub mod Common
pub mod Http
pub mod Jsonrpc
pub mod Amqp
pub mod Nats
pub mod Awslambda
pub mod Grpc
pub mod Httprp
