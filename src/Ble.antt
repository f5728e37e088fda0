-- ===== src/Ble.antt =====
-- The Bluetooth side of the bridge.
mod Transport
pub mod ScanCoordinator
pub mod EventQueue
pub mod Client
