-- ===== src/Battery.antt =====
-- A battery behind its transport: the telemetry that it shares and the driver that fills it in.
pub mod Path
pub mod Protocol
pub mod State
pub mod Handler
pub mod Delivery
pub mod Assembly
