-- ===== src/Protocol.antt =====
-- grbl/protocol.c: the realtime executor, the overrides and the input line filter.
pub mod Overrides
pub mod Realtime
pub mod Lines
pub mod Suspend
