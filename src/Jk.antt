-- ===== src/Jk.antt =====
-- The JK BMS protocol (include/jk_protocol.hpp, src/jk_protocol.cpp, src/jk_protocol_driver.cpp).
pub mod Types
pub mod Wire
pub mod Assembler
pub mod Parse
pub mod Driver
