-- ===== src/Opcua.antt =====
-- opcua_edge_server/src: the simulated machine, its update loop and the data sources.
pub mod Sim
pub mod Source
pub mod Update
pub mod Model
pub mod Main
