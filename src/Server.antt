-- ===== src/Server.antt =====
-- server/src/main.rs: the introducer service `Connector`. `State` has the six maps of
-- `ConnectionService`; the handlers that only read or write them stand in `Registry` and `Files`,
-- those that wake a waiting peer in `Signals`.
pub mod Maps
pub mod State
pub mod Registry
pub mod Files
pub mod Signals
pub mod Run
