-- ===== src/Pylontech.antt =====
-- The Pylontech RS485 protocol (src/pylontech.cpp).
pub mod Hex
pub mod Frame
pub mod Cursor
pub mod Payload
pub mod Responder
pub mod Stream
pub mod Master
