-- ===== src/Protocol.antt =====
-- The frame protocol of async_telemetry_server: checksum, frames, and frames on a stream.
pub mod Crc
pub mod Bytes
pub mod Frame
pub mod Sensor
