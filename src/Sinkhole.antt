-- ===== src/Sinkhole.antt =====
-- backend/app/sinkhole.py: the listener that takes every outbound connection of an analysis.
pub mod Dns
pub mod Hosts
pub mod Leaves
pub mod Http
pub mod Lifecycle
