-- ===== src/Server.antt =====
-- async_telemetry_server: reading frames, sessions, the database and its connection pool.
pub mod Jwt
pub mod World
pub mod Wire
pub mod Session
pub mod Pool
pub mod Tls
pub mod Client
pub mod Main
pub mod Listen
