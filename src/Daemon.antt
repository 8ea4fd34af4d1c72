-- ===== src/Daemon.antt =====
-- The edge IPC daemon: include/ and src/.
pub mod State
pub mod Manager
pub mod Real
pub mod Filter
pub mod Detector
pub mod Processor
pub mod Receiver
pub mod FileSource
pub mod Simulated
pub mod Bus
pub mod Loop
