-- ===== src/Node.antt =====
-- The telemetry node of secure_distributed_node/.
pub mod Stream
pub mod Producer
pub mod Reports
pub mod Rounds
pub mod Coordinator
pub mod Service
pub mod Life
pub mod Credentials
pub mod Main
